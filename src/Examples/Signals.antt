-- ===== src/Examples/Signals.antt =====
-- Signals and the lines of a backtrace.
use koheron_server.Signals.Crash.{Line, texts_of, crash_reports, crash, frame, crash_reports-frames}
use koheron_server.Base.{
  Option, none, some, true, ◌==◌, if◌then◌else◌, ℕ, ◌≡◌, ◌<◌, refl, List, [], ◌∷◌, arith, ◌||◌, ℤ,
  pos, is_neg, false,
}
use koheron_server.Signals.{
  Signal, sigpipe, sigsegv, sigabrt, init, set_interrup_signals, set_ignore_signals,
  set_crash_signals, Flag,
}
use koheron_server.Signals.Delivery.{deliver_all, any_ends, init-interrupted}
use koheron_server.Signals.Backtrace.{IsPlain}

abbrev succeeds : Signal → ℤ
succeeds s = pos 0

abbrev fresh_flag : Flag
fresh_flag = record { s_interrupted = false; crashes = 0 }

set_up : is_neg (init succeeds).0 ≡ false
unfolding init set_interrup_signals set_ignore_signals set_crash_signals
set_up = refl

init-interrupted_example :
    (deliver_all (init succeeds).1 (sigpipe ∷ sigsegv ∷ []) fresh_flag).s_interrupted
    ≡ false || any_ends (sigpipe ∷ sigsegv ∷ [])
init-interrupted_example = init-interrupted succeeds (sigpipe ∷ sigsegv ∷ []) fresh_flag set_up

-- "ks"
abbrev object : List ℕ
object = 107 ∷ 115 ∷ []

-- "_Zf"
abbrev name : List ℕ
name = 95 ∷ 90 ∷ 102 ∷ []

-- "0x1"
abbrev offset : List ℕ
offset = 48 ∷ 120 ∷ 49 ∷ []

-- Every character behind '+' but none of the three.
cons-IsPlain : (c : ℕ) (text : List ℕ) → 43 < c → IsPlain text → IsPlain (c ∷ text)
cons-IsPlain c text h p =
    (λ e. absurd (omega arith), λ e. absurd (omega arith), λ e. absurd (omega arith), p)

object-IsPlain : IsPlain object
object-IsPlain = cons-IsPlain 107 (115 ∷ []) (omega arith) (cons-IsPlain 115 [] (omega arith) tt)

name-IsPlain : IsPlain name
name-IsPlain =
    cons-IsPlain 95 (90 ∷ 102 ∷ []) (omega arith)
      (cons-IsPlain 90 (102 ∷ []) (omega arith) (cons-IsPlain 102 [] (omega arith) tt))

offset-IsPlain : IsPlain offset
offset-IsPlain =
    cons-IsPlain 48 (120 ∷ 49 ∷ []) (omega arith)
      (cons-IsPlain 120 (49 ∷ []) (omega arith) (cons-IsPlain 49 [] (omega arith) tt))

-- "a(f+1)" and then "b(g+2)", of which only "f" can be demangled, to "F".
abbrev two_lines : List Line
two_lines =
    record { object = 97 ∷ []; name = 102 ∷ []; offset = 49 ∷ []; rest = [] }
    ∷ record { object = 98 ∷ []; name = 103 ∷ []; offset = 50 ∷ []; rest = [] }
    ∷ []

abbrev demangle_f : List ℕ → Option (List ℕ)
demangle_f (c ∷ []) = if c == 102 then some (70 ∷ []) else none
demangle_f _ = none

crash_reports-frames_example :
    let (f', reports) =
      crash_reports demangle_f sigsegv
        (some (texts_of two_lines))
        (record { s_interrupted = false; crashes = 0 }) in
    (reports
      ≡ crash sigsegv "(Segmentation Fault)"
        ∷ frame 0 (97 ∷ []) (70 ∷ []) (49 ∷ []) []
        ∷ frame 1 (98 ∷ []) (103 ∷ []) (50 ∷ []) []
        ∷ [])
    × (f'.s_interrupted ≡ true)
    × (crash_reports demangle_f sigabrt none f' ≡ (f', []))
crash_reports-frames_example =
    crash_reports-frames demangle_f sigsegv sigabrt two_lines none
      (record { s_interrupted = false; crashes = 0 }) refl (omega arith)
