-- ===== src/Examples/Devices.antt =====
-- Devices of which one needs another.
use koheron_server.Base.{
  Bool-cases, inl, inr, ℕ, ◌≡◌, ◌+◌, refl, some, List, [], ◌∷◌, arith, count, ◌==◌, if◌then◌else◌,
  pos, true, false,
}
use koheron_server.Devices.{Devices, set_flag, execute}
use koheron_server.Devices.Start.{IsConsistent, Extends, AreRanked, execute-runs}

abbrev none_started : Devices
none_started = record {
  is_started = λ d. false;
  container_started = λ d. false;
  is_starting = λ d. false;
  constructed = [];
  exit_all = false;
}

-- Device 3 needs device 2.
abbrev needs : ℕ → List ℕ
needs d = if d == 3 then 2 ∷ [] else []

abbrev rank : ℕ → ℕ
rank d = if d == 3 then 1 else 0

needs-AreRanked : AreRanked needs rank
needs-AreRanked d = elim (Bool-cases (d == 3)) [ inl e ↦ rw e (omega arith, tt) | inr e ↦ rw e tt ]

none_started-IsConsistent : IsConsistent needs none_started
none_started-IsConsistent = record {
  agree = λ d. refl;
  once = λ d. refl;
  closed = λ d h. absurd (cc);
}

execute-runs_example :
    (s' : Devices) × (execute needs
        (λ t. (pos 0, t))
        (λ d t. (pos d, t + 1))
        4
        2
        3
        (none_started, 5)
      ≡ some (pos 3, s', 6))
    × (s'.is_started 3 ≡ true)
    × ((s'.is_started 2 ≡ true) × Unit {0})
    × (count 3 s'.constructed ≡ 1)
    × Extends needs none_started s'
execute-runs_example =
    execute-runs needs rank needs-AreRanked (λ t. (pos 0, t)) (λ d t. (pos d, t + 1)) 4 2 3
      none_started 5 (omega arith) (omega arith) (omega arith) none_started-IsConsistent (λ d. refl)

-- Device 3 needs device 2, and devices 4 and 5 need each other.
abbrev with_cycle : ℕ → List ℕ
with_cycle d = if d == 3 then 2 ∷ [] else if d == 4 then 5 ∷ [] else if d == 5 then 4 ∷ [] else []

abbrev three_started : Devices
three_started = record {
  is_started = set_flag 3 true (set_flag 2 true (λ d. false));
  container_started = set_flag 3 true (set_flag 2 true (λ d. false));
  is_starting =
      set_flag 3 false (set_flag 2 false (set_flag 2 true (set_flag 3 true (λ d. false))));
  constructed = 3 ∷ 2 ∷ [];
  exit_all = false;
}
