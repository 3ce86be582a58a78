-- ===== src/Listener/Races.antt =====
-- What two threads can do to the counters of `ListenerStats` and to the limit on sessions.
use koheron_server.Base.{
  ℕ, zero, suc, ◌+◌, ◌^◌, ◌≤◌, ◌<◌, ◌≡◌, refl, sym, List, [], ◌∷◌, ◌++◌, arith, pos, false,
  replicate, append_assoc,
}
use koheron_server.Listener.Threads.{
  Phase, spawned, counted, opening, opened, increment, advance, Channel, is_max_threads, comm_round,
  start_channel, stepped, accepts, advances, Reach, begin, next,
}

-- Clients may be accepted at any time.
abbrev pub Any : Channel → Type 0
Any ch = Unit {0}

abbrev waiting : ℕ → Channel
waiting k = record start_channel { threads = replicate k spawned; accepted = k }

is_room : (limit : ℕ) → 1 ≤ limit → limit + 1 < 2 ^ 31 → is_max_threads limit 0 ≡ false
unfolding is_max_threads
is_room limit h small = ground arith

waiting-comm_round :
    (limit k : ℕ)
    → 1 ≤ limit
    → limit + 1 < 2 ^ 31
    → waiting (suc k) ≡ comm_round limit (pos 0) (waiting k)
unfolding comm_round
waiting-comm_round limit k h small = rw (is_room limit h small) (ground arith)

Reach-waiting : (limit : ℕ) → 1 ≤ limit → limit + 1 < 2 ^ 31 → (k : ℕ) → Reach limit Any (waiting k)
Reach-waiting limit h small zero = begin
Reach-waiting limit h small (suc k) =
    next (Reach-waiting limit h small k)
      (accepts (pos 0) refl tt (waiting-comm_round limit k h small))

count_each :
    (limit j n : ℕ) (front : List Phase) (ch : Channel)
    → Reach limit Any ch
    → ch.threads ≡ front ++ replicate j spawned
    → ch.shared.num_threads ≡ n
    → n + j < 2 ^ 32
    → (ch' : Channel) × Reach limit Any ch' × (ch'.shared.num_threads ≡ n + j)
unfolding advance
count_each limit zero n front ch r e h small = (ch, r, omega arith)
count_each limit (suc j) n front ch r e h small =
    let (ch', r', h') =
      count_each limit j (n + 1) (front ++ counted ∷ [])
        (stepped 0 front spawned (replicate j spawned) ch)
        (next r (advances 0 front spawned (replicate j spawned) e refl))
        (sym (append_assoc front (counted ∷ []) (replicate j spawned))) (omega arith)
        (omega arith) in
    (ch', r', omega arith)

-- The limit is tested before the new thread counts itself: for every limit from 1 to 2 ^ 31 - 2 and
-- every number of sessions below 2 ^ 32 there is an order of steps in which so many are counted at
-- once.
pub limit_overshot :
    (limit k : ℕ)
    → 1 ≤ limit
    → limit + 1 < 2 ^ 31
    → k < 2 ^ 32
    → (ch : Channel) × Reach limit Any ch × (ch.shared.num_threads ≡ k)
limit_overshot limit k h small fits =
    let (ch, r, e) =
      count_each limit k 0 [] (waiting k) (Reach-waiting limit h small k) refl refl (omega arith) in
    (ch, r, omega arith)

-- When two threads have counted themselves, there is an order of steps in which both have passed
-- the change of `opened_sessions_num` and it has grown by one only.
pub opened_lost :
    {limit : ℕ} {Chance : Channel → Type 0} {ch : Channel} (front back : List Phase)
    → Reach limit Chance ch
    → ch.threads ≡ front ++ (counted ∷ counted ∷ back)
    → (ch' : Channel) × Reach limit Chance ch'
      × (ch'.threads ≡ front ++ (opened ∷ opened ∷ back))
      × (ch'.shared.opened_sessions_num ≡ increment ch.shared.opened_sessions_num)
unfolding advance
opened_lost {ch = ch} front back r e =
    let n = ch.shared.opened_sessions_num in
    let assoc = λ (p : Phase) (ps : List Phase). sym (append_assoc front (p ∷ []) ps) in
    let s₁ = stepped 0 front counted (counted ∷ back) ch in
    let r₁ = next r (advances 0 front counted (counted ∷ back) e refl) in
    let s₂ = stepped 0 (front ++ opening n ∷ []) counted back s₁ in
    let r₂ = next r₁ (
      advances 0 (front ++ opening n ∷ []) counted back (assoc (opening n) (counted ∷ back))
        refl) in
    let s₃ = stepped 0 front (opening n) (opening n ∷ back) s₂ in
    let r₃ = next r₂ (
      advances 0 front (opening n) (opening n ∷ back)
        (append_assoc front (opening n ∷ []) (opening n ∷ back)) refl) in
    let s₄ = stepped 0 (front ++ opened ∷ []) (opening n) back s₃ in
    let r₄ =
      next r₃ (
        advances 0 (front ++ opened ∷ []) (opening n) back (assoc opened (opening n ∷ back))
          refl) in
    (s₄, r₄, append_assoc front (opened ∷ []) (opened ∷ back), refl)
