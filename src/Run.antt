-- ===== src/Run.antt =====
-- `Session::run` of core/kserver_session.hpp: the loop over the commands of a client. The socket
-- and the devices are a state of any type, with the session's and the devices' functions on it.
pub mod Sockets
use koheron_server.Base.{
  subst, ℕ, zero, suc, ◌+◌, ◌%◌, ◌^◌, ◌≤◌, ◌<◌, ◌≡◌, refl, Option, none, some, arith, if◌then◌else◌,
  ℤ, pos, minus_one, is_neg, Bool, true, false,
}
use koheron_server.Buffer.{Command}
use koheron_server.Tcp.Session.{is_not_pos}

-- The counters of a session, both unsigned int.
pub record Counters : Type 0 where
  pub requests_num : ℕ
  pub errors_num : ℕ

abbrev pub no_requests : Counters
no_requests = record { requests_num = 0; errors_num = 0 }

-- What `execute` returned is counted.
abbrev pub count_request : ℤ → Counters → Counters
count_request r c = record {
  requests_num = (c.requests_num + 1) % 2 ^ 32;
  errors_num = if is_neg r then (c.errors_num + 1) % 2 ^ 32 else c.errors_num;
}

-- What `run` calls and loads: `exit_comm` and whether `status` is CLOSED depend on the state.
pub record Calls (T : Type 0) : Type 0 where
  pub init_socket : T → ℤ × T
  pub exit_socket : T → T
  pub read_command : T → ℤ × Command × T
  pub execute : Command → T → ℤ × T
  pub exit_comm : T → Bool
  pub is_closed : T → Bool

module _ {T : Type 0} (calls : Calls T) where
  -- `exit_session(); return 0;`
  abbrev pub finish : Counters → T → Option (ℤ × Counters × T)
  finish c t = some (pos 0, c, calls.exit_socket t)

  run_loop : ℕ → Counters → T → Option (ℤ × Counters × T)
  run_loop zero c t = none
  run_loop (suc fuel) c t =
      let (received, cmd, t₁) = calls.read_command t in
      let (r, t₂) = calls.execute cmd t₁ in
      let again = run_loop fuel (count_request r c) t₂ in
      if calls.exit_comm t
      then finish c t
      else if calls.exit_comm t₁
      then finish c t₁
      else if is_not_pos received
      then some (received, c, t₁)
      else if calls.is_closed t₂
      then finish (count_request r c) t₂
      else again

  -- `run()`; `init_session` resets the counters.
  pub run : ℕ → T → Option (ℤ × Counters × T)
  unfolding run_loop
  run fuel t =
      let (err, t') = calls.init_socket t in
      if is_neg err then some (minus_one, no_requests, t') else run_loop fuel no_requests t'

-- What is observed of the state: the commands executed so far, those that failed, and the commands
-- that the client has still to send.
pub record Observed {T : Type 0} (calls : Calls T) : Type 0 where
  pub executed : T → ℕ
  pub failed : T → ℕ
  pub to_come : T → ℕ
  pub init_observed :
      (t : T)
      → let t' = (calls.init_socket t).1 in
        (executed t' ≡ executed t) × (failed t' ≡ failed t) × (to_come t' ≡ to_come t)
  pub exit_observed :
      (t : T) → let t' = calls.exit_socket t in (executed t' ≡ executed t) × (failed t' ≡ failed t)
  pub read_observed :
      (t : T)
      → let (n, cmd, t') = calls.read_command t in
        (executed t' ≡ executed t)
        × (failed t' ≡ failed t)
        × (if is_not_pos n then Unit {0} else (to_come t' + 1 ≡ to_come t))
  pub execute_observed :
      (cmd : Command) (t : T)
      → let (r, t') = calls.execute cmd t in
        (executed t' ≡ executed t + 1)
        × (failed t' ≡ failed t + (if is_neg r then 1 else 0))
        × (to_come t' ≡ to_come t)

-- A result of the given kind is returned.
abbrev Returns : {R : Type 0} → (R → Type 0) → Option R → Type 0
Returns {R} P o = (x : R) × (o ≡ some x) × P x

Returns-if :
    {R : Type 0} (P : R → Type 0) (b : Bool) (x y : Option R)
    → (b ≡ true → Returns P x)
    → (b ≡ false → Returns P y)
    → Returns P (if b then x else y)
Returns-if P true x y h k = h refl
Returns-if P false x y h k = k refl

-- Below 2 ^ 32 the counters do not wrap.
counted-below :
    (r : ℤ) (c : Counters)
    → c.requests_num + 1 < 2 ^ 32
    → c.errors_num ≤ c.requests_num
    → ((count_request r c).requests_num ≡ c.requests_num + 1)
      × ((count_request r c).errors_num ≡ c.errors_num + (if is_neg r then 1 else 0))
      × ((count_request r c).errors_num ≤ (count_request r c).requests_num)
counted-below r c h le = ground arith

module _ {T : Type 0} (calls : Calls T) (o : Observed calls) where
  -- The counters have grown by the commands executed and by those that failed.
  abbrev Counted : Counters → T → ℤ × Counters × T → Type 0
  Counted c t (r, c', t') =
      (c'.requests_num + o.executed t ≡ c.requests_num + o.executed t')
      × (c'.errors_num + o.failed t ≡ c.errors_num + o.failed t')

  run_loop-Counted :
      (fuel : ℕ) (c : Counters) (t : T)
      → o.to_come t < fuel
      → c.requests_num + o.to_come t < 2 ^ 32
      → c.errors_num ≤ c.requests_num
      → Returns (Counted c t) (run_loop calls fuel c t)
  unfolding run_loop
  run_loop-Counted zero c t f room le = absurd (omega arith)
  run_loop-Counted (suc fuel) c t f room le =
      let cmd = (calls.read_command t).1 in
      let t₁ = (calls.read_command t).2 in
      let r = (calls.execute cmd t₁).0 in
      let t₂ = (calls.execute cmd t₁).1 in
      let ex = o.exit_observed in
      let rd = o.read_observed t in
      Returns-if (Counted c t) (calls.exit_comm t) _ _
        (λ e. (_, refl, (omega (arith, ex t), omega (arith, ex t))))
        λ e₁.
          Returns-if (Counted c t) (calls.exit_comm t₁) _ _
            (λ e. (_, refl, (omega (arith, ex t₁, rd), omega (arith, ex t₁, rd))))
            λ e₂.
              Returns-if (Counted c t) (is_not_pos (calls.read_command t).0) _ _
                (λ e. (_, refl, (omega (arith, rd), omega (arith, rd))))
                λ e₃.
                  let less =
                    subst (λ b. if b then Unit {0} else (o.to_come t₁ + 1 ≡ o.to_come t)) e₃ rd.2 in
                  let counted = counted-below r c (omega (arith, less)) le in
                  let xc = o.execute_observed cmd t₁ in
                  Returns-if (Counted c t) (calls.is_closed t₂) _ _
                    (λ e. (
                      _,
                      refl,
                      (
                        omega (arith, counted, xc, rd, ex t₂),
                        omega (arith, counted, xc, rd, ex t₂),
                      ),
                    ))
                    (λ e.
                      let (x, returns, q) =
                        run_loop-Counted fuel (count_request r c) t₂ (omega (arith, less, xc))
                          (omega (arith, less, xc, counted)) counted.2 in
                      (
                        x,
                        returns,
                        (omega (arith, counted, xc, rd, q), omega (arith, counted, xc, rd, q)),
                      ))

  -- On fuel above the number of commands that the client has to send, which is below 2 ^ 32, a
  -- session returns, and its counters are the numbers of the commands that were executed and of
  -- those that failed while it ran.
  pub run-Counted :
      (fuel : ℕ) (t : T)
      → o.to_come t < fuel
      → o.to_come t < 2 ^ 32
      → (r : ℤ) × (c : Counters) × (t' : T) × (run calls fuel t ≡ some (r, c, t'))
        × (o.executed t' ≡ o.executed t + c.requests_num)
        × (o.failed t' ≡ o.failed t + c.errors_num)
  unfolding run
  run-Counted fuel t f room =
      let t₁ = (calls.init_socket t).1 in
      let io = o.init_observed t in
      let ((r, c, t'), returns, q) =
        Returns-if (Counted no_requests t) (is_neg (calls.init_socket t).0) _ _
          (λ e. (_, refl, (omega (arith, io), omega (arith, io))))
          (λ e.
            let (x, returns, q) =
              run_loop-Counted fuel no_requests t₁ (omega (arith, io)) (omega (arith, io))
                (omega arith) in
            (x, returns, (omega (arith, q, io), omega (arith, q, io)))) in
      (r, c, t', returns, omega (arith, q), omega (arith, q))
