-- ===== src/Listener/Schedule.antt =====
-- The counters and the descriptors under every order of the threads' steps.
use koheron_server.Base.{
  ℕ, ◌+◌, ◌%◌, ◌^◌, ◌≤◌, ◌<◌, ◌≡◌, refl, sym, ap, ◌∙◌, subst, List, [], ◌∷◌, ◌++◌, arith, ℤ, pos,
  negsuc,
}
use koheron_server.Listener.Threads.{
  Shared, Phase, spawned, counted, opening, opened, totalling, ready, ran, adding, added, deleted,
  discounted, closing, finished, advance, Channel, is_max_threads, comm_round, stepped, Step,
  accepts, stops, exits, advances, Reach, begin, next,
}

-- Whether a thread is between the changes of `num_threads`, and whether its descriptor is open.
abbrev pub is_counted : Phase → ℕ
is_counted spawned = 0
is_counted discounted = 0
is_counted (closing n) = 0
is_counted finished = 0
is_counted _ = 1

abbrev pub is_holding : Phase → ℕ
is_holding deleted = 0
is_holding discounted = 0
is_holding (closing n) = 0
is_holding finished = 0
is_holding _ = 1

-- How many threads of a list are so.
abbrev pub total : (Phase → ℕ) → List Phase → ℕ
total w [] = 0
total w (p ∷ ps) = w p + total w ps

total-append : (w : Phase → ℕ) (ps qs : List Phase) → total w (ps ++ qs) ≡ total w ps + total w qs
total-append w [] qs = omega arith
total-append w (p ∷ ps) qs = omega (arith, total-append w ps qs)

-- `num_threads` is the number of threads between its changes, and every descriptor that was
-- accepted is held by a thread, was closed by one or was abandoned.
pub record IsAccounted (ch : Channel) : Type 0 where
  pub threads : ch.shared.num_threads ≡ total is_counted ch.threads % 2 ^ 32
  pub descriptors : ch.accepted ≡ total is_holding ch.threads + ch.shared.closed + ch.abandoned

advance-counted :
    (served : ℕ) (p : Phase) (s : Shared) (others : ℕ)
    → s.num_threads ≡ (others + is_counted p) % 2 ^ 32
    → let (p', s') = advance served p s in s'.num_threads ≡ (others + is_counted p') % 2 ^ 32
unfolding advance
advance-counted served spawned s others h = omega arith
advance-counted served counted s others h = h
advance-counted served (opening n) s others h = h
advance-counted served opened s others h = h
advance-counted served (totalling n) s others h = h
advance-counted served ready s others h = h
advance-counted served (ran n) s others h = h
advance-counted served (adding n k) s others h = h
advance-counted served added s others h = h
advance-counted served deleted s others h = omega arith
advance-counted served discounted s others h = h
advance-counted served (closing n) s others h = h
advance-counted served finished s others h = h

advance-holding :
    (served : ℕ) (p : Phase) (s : Shared)
    → let (p', s') = advance served p s in is_holding p' + s'.closed ≡ is_holding p + s.closed
unfolding advance
advance-holding served spawned s = refl
advance-holding served counted s = refl
advance-holding served (opening n) s = refl
advance-holding served opened s = refl
advance-holding served (totalling n) s = refl
advance-holding served ready s = refl
advance-holding served (ran n) s = refl
advance-holding served (adding n k) s = refl
advance-holding served added s = omega arith
advance-holding served deleted s = refl
advance-holding served discounted s = refl
advance-holding served (closing n) s = refl
advance-holding served finished s = refl

comm_round-IsAccounted :
    (limit : ℕ) (fd : ℤ) (ch : Channel) → IsAccounted ch → IsAccounted (comm_round limit fd ch)
unfolding comm_round
comm_round-IsAccounted limit (negsuc n) ch v = ground (arith, v.threads, v.descriptors)
comm_round-IsAccounted limit (pos fd) ch v = ground (arith, v.threads, v.descriptors)

stepped-IsAccounted :
    (served : ℕ) (front : List Phase) (p : Phase) (back : List Phase) (ch : Channel)
    → ch.threads ≡ front ++ (p ∷ back)
    → IsAccounted ch
    → IsAccounted (stepped served front p back ch)
stepped-IsAccounted served front p back ch e v =
    let (p', s') = advance served p ch.shared in
    let was = ap (total is_counted) e ∙ total-append is_counted front (p ∷ back) in
    let is = total-append is_counted front (p' ∷ back) in
    let held = ap (total is_holding) e ∙ total-append is_holding front (p ∷ back) in
    let holds = total-append is_holding front (p' ∷ back) in
    record {
      threads = omega (
        arith,
        is,
        advance-counted served p ch.shared (total is_counted front + total is_counted back)
            (omega (arith, was, v.threads)),
      );
      descriptors = omega (arith, held, holds, advance-holding served p ch.shared, v.descriptors);
    }

Step-IsAccounted :
    (limit : ℕ) (Chance : Channel → Type 0) (ch ch' : Channel)
    → Step limit Chance ch ch'
    → IsAccounted ch
    → IsAccounted ch'
Step-IsAccounted limit Chance ch ch' (accepts fd l c e) v =
    subst IsAccounted (sym e) (comm_round-IsAccounted limit fd ch v)
Step-IsAccounted limit Chance ch ch' (stops l x e) v =
    subst IsAccounted (sym e) (record { threads = v.threads; descriptors = v.descriptors })
Step-IsAccounted limit Chance ch ch' (exits e) v =
    subst IsAccounted (sym e) (record { threads = v.threads; descriptors = v.descriptors })
Step-IsAccounted limit Chance ch ch' (advances served front p back e e') v =
    subst IsAccounted (sym e') (stepped-IsAccounted served front p back ch e v)

-- Under every order of the threads' steps, `num_threads` counts the threads between its changes
-- modulo 2 ^ 32, and each accepted descriptor is held by a thread, closed or abandoned.
pub Reach-IsAccounted :
    {limit : ℕ} {Chance : Channel → Type 0} {ch : Channel} → Reach limit Chance ch → IsAccounted ch
Reach-IsAccounted begin = record { threads = refl; descriptors = refl }
Reach-IsAccounted (next r st) = Step-IsAccounted _ _ _ _ st (Reach-IsAccounted r)

-- No thread is between its start and its change of `num_threads`.
abbrev pub is_starting : Phase → ℕ
is_starting spawned = 1
is_starting _ = 0

abbrev pub IsPrompt : Channel → Type 0
IsPrompt ch = total is_starting ch.threads ≡ 0

-- The threads that count or will count are within the limit.
abbrev IsWithin : ℕ → Channel → Type 0
IsWithin limit ch = total is_starting ch.threads + total is_counted ch.threads ≤ limit

advance-starting :
    (served : ℕ) (p : Phase) (s : Shared)
    → let (p', s') = advance served p s in
      is_starting p' + is_counted p' ≤ is_starting p + is_counted p
unfolding advance
advance-starting served spawned s = omega arith
advance-starting served counted s = omega arith
advance-starting served (opening n) s = omega arith
advance-starting served opened s = omega arith
advance-starting served (totalling n) s = omega arith
advance-starting served ready s = omega arith
advance-starting served (ran n) s = omega arith
advance-starting served (adding n k) s = omega arith
advance-starting served added s = omega arith
advance-starting served deleted s = omega arith
advance-starting served discounted s = omega arith
advance-starting served (closing n) s = omega arith
advance-starting served finished s = omega arith

comm_round-IsWithin :
    (limit : ℕ) (fd : ℤ) (ch : Channel)
    → limit + 1 < 2 ^ 31
    → IsAccounted ch
    → IsPrompt ch
    → IsWithin limit ch
    → IsWithin limit (comm_round limit fd ch)
unfolding comm_round is_max_threads
comm_round-IsWithin limit (negsuc n) ch small v prompt h = ground arith
comm_round-IsWithin limit (pos fd) ch small v prompt h = ground (arith, v.threads)

stepped-IsWithin :
    (limit served : ℕ) (front : List Phase) (p : Phase) (back : List Phase) (ch : Channel)
    → ch.threads ≡ front ++ (p ∷ back)
    → IsWithin limit ch
    → IsWithin limit (stepped served front p back ch)
stepped-IsWithin limit served front p back ch e h =
    let p' = (advance served p ch.shared).0 in
    omega (
      arith,
      ap (total is_counted) e,
      ap (total is_starting) e,
      total-append is_counted front (p ∷ back),
      total-append is_counted front (p' ∷ back),
      total-append is_starting front (p ∷ back),
      total-append is_starting front (p' ∷ back),
      advance-starting served p ch.shared,
    )

Step-IsWithin :
    (limit : ℕ) (ch ch' : Channel)
    → limit + 1 < 2 ^ 31
    → Step limit IsPrompt ch ch'
    → IsAccounted ch
    → IsWithin limit ch
    → IsWithin limit ch'
Step-IsWithin limit ch ch' small (accepts fd l prompt e) v h =
    subst (IsWithin limit) (sym e) (comm_round-IsWithin limit fd ch small v prompt h)
Step-IsWithin limit ch ch' small (stops l x e) v h = subst (IsWithin limit) (sym e) h
Step-IsWithin limit ch ch' small (exits e) v h = subst (IsWithin limit) (sym e) h
Step-IsWithin limit ch ch' small (advances served front p back e e') v h =
    subst (IsWithin limit) (sym e') (stepped-IsWithin limit served front p back ch e h)

Reach-IsWithin :
    {limit : ℕ} {ch : Channel} → limit + 1 < 2 ^ 31 → Reach limit IsPrompt ch → IsWithin limit ch
Reach-IsWithin small begin = omega arith
Reach-IsWithin small (next r st) =
    Step-IsWithin _ _ _ small st (Reach-IsAccounted r) (Reach-IsWithin small r)

-- If every thread changes `num_threads` before the next client is accepted, there are never more
-- counted threads than the configured `worker_connections`, which has to be below 2 ^ 31 - 1.
pub Reach-prompt_le :
    {limit : ℕ} {ch : Channel}
    → limit + 1 < 2 ^ 31
    → Reach limit IsPrompt ch
    → ch.shared.num_threads ≤ limit
Reach-prompt_le small r = omega (arith, Reach-IsWithin small r, (Reach-IsAccounted r).threads)
