-- ===== src/Server/Requests/Answers.antt =====
-- What the operations of the server send and return, for a session that exists.
use koheron_server.Base.{
  ℕ, ◌^◌, ◌≤◌, ◌≡◌, ◌≢◌, refl, sym, ap, ◌∙◌, subst, none, some, List, [], ◌∷◌, ◌++◌, arith, ltb,
  if◌then◌else◌, of_bits, ℤ, pos, minus_one, false, Bool-cases, inl, inr, append_assoc,
}
use koheron_server.Sessions.{Session, Pool, Manager, lookup, get_current_ids}
use koheron_server.Sessions.Pool.{held, lookup-append}
use koheron_server.Sessions.History.{History, History-IsValid}
use koheron_server.Sessions.Spec.{History-none_null}
use koheron_server.Server.Requests.{
  Formatted, Host, is_unfit, to_unsigned, get_stats_num, get_running_sessions_num, end_of_stats,
  end_of_sessions, send_listener_stats, send_all_stats, get_stats, send_sessions,
  get_running_sessions,
}

never_below : (n : ℕ) → ltb n 0 ≡ false
never_below n = ground arith

-- The state after a text was sent for an operation.
module _ {T : Type 0} (after : ℕ → List ℕ → T → T) where
  -- The listeners' statistics that fit into the buffer, and the end.
  abbrev pub send_each_stats : List (T → Formatted) → T → T
  send_each_stats [] t = after get_stats_num end_of_stats t
  send_each_stats (stats ∷ listeners) t =
      send_each_stats listeners
        (if is_unfit (stats t).0 then t else after get_stats_num (stats t).1 t)

  -- The sessions of a pool in its order, and the end.
  abbrev pub send_each_session : (ℕ → Session → T → Formatted) → Pool → T → T
  send_each_session describe [] t = after get_running_sessions_num end_of_sessions t
  send_each_session describe ((id, none) ∷ m) t = send_each_session describe m t
  send_each_session describe ((id, some s) ∷ m) t =
      send_each_session describe m (after get_running_sessions_num (describe id s t).1 t)

module _ {T : Type 0} (host : Host T) (answer : ℕ → List ℕ → T → ℤ) (after : ℕ → List ℕ → T → T)
    (sends : (op : ℕ) (text : List ℕ) (t : T)
      → host.send op text t ≡ some (answer op text t, after op text t)) where
  send_listener_stats-sends :
      (f : Formatted) (t : T)
      → (r : ℤ) × (send_listener_stats host f t
          ≡ some (r, if is_unfit f.0 then t else after get_stats_num f.1 t))
  unfolding send_listener_stats
  send_listener_stats-sends (ret, text) t = elim (Bool-cases (is_unfit ret)) [
    | inl unfit ↦ (minus_one, rw unfit refl)
    | inr fits ↦
        let r = answer get_stats_num text t in
        (
          of_bits (2 ^ 31) (to_unsigned r),
          rw (fits, sends get_stats_num text t, never_below (to_unsigned r)) refl,
        )
  ]

  send_all_stats-each :
      (listeners : List (T → Formatted)) (t : T)
      → send_all_stats host listeners t ≡ some (pos 0, send_each_stats after listeners t)
  unfolding send_all_stats
  send_all_stats-each [] t =
      rw
        (
          sends get_stats_num end_of_stats t,
          never_below (to_unsigned (answer get_stats_num end_of_stats t)),
        )
        refl
  send_all_stats-each (stats ∷ listeners) t =
      let (r, e) = send_listener_stats-sends (stats t) t in
      rw (e, never_below (to_unsigned r)) (send_all_stats-each listeners _)

  -- If the time fits into the buffer, GET_STATS sends it, then the statistics of each listener that
  -- fit, in order, and then the end, and returns 0: also if sends answer with errors or if a
  -- listener's statistics do not fit, although each of these is tested.
  pub get_stats-each :
      (t : T)
      → is_unfit (host.uptime t).0 ≡ false
      → get_stats host t
        ≡ some (
          pos 0,
          send_each_stats after host.listener_stats (after get_stats_num (host.uptime t).1 t),
        )
  unfolding get_stats
  get_stats-each t fits =
      let text = (host.uptime t).1 in
      rw (fits, sends get_stats_num text t, never_below (to_unsigned (answer get_stats_num text t)))
        (send_all_stats-each host.listener_stats (after get_stats_num text t))

  module _ (keeps : (op : ℕ) (text : List ℕ) (t : T) → host.pool (after op text t) ≡ host.pool t)
      (fits : (id : ℕ) (s : Session) (t : T) → is_unfit (host.describe id s t).0 ≡ false) where
    send_sessions-each :
        (front back : Pool) (t : T)
        → host.pool t ≡ front ++ back
        → ((i : ℕ) → held i (front ++ back) ≤ 1)
        → ((i : ℕ) → lookup i (front ++ back) ≢ some none)
        → send_sessions host (get_current_ids back) t
          ≡ some (pos 0, send_each_session after host.describe back t)
    unfolding send_sessions
    send_sessions-each front [] t e once made =
        let r = answer get_running_sessions_num end_of_sessions t in
        rw (sends get_running_sessions_num end_of_sessions t, never_below (to_unsigned r)) refl
    send_sessions-each front ((id, none) ∷ back) t e once made =
        absurd (made id (lookup-append id none front back (once id)))
    send_sessions-each front ((id, some s) ∷ back) t e once made =
        let text = (host.describe id s t).1 in
        let r = answer get_running_sessions_num text t in
        let assoc = append_assoc front ((id, some s) ∷ []) back in
        rw
          (
            e,
            lookup-append id (some s) front back (once id),
            fits id s t,
            sends get_running_sessions_num text t,
            never_below (to_unsigned r),
          )
          (send_sessions-each (front ++ (id, some s) ∷ []) back
            (after get_running_sessions_num text t)
            (keeps get_running_sessions_num text t ∙ (e ∙ sym assoc))
            (λ i. subst (λ p. held i p ≤ 1) (sym assoc) (once i))
            (λ i. subst (λ p. lookup i p ≢ some none) (sym assoc) (made i)))

    -- If the pool is that of a manager with a history, sending changes no pool and each session's
    -- line fits into the buffer, GET_RUNNING_SESSIONS sends a line for each session of the pool,
    -- once, in the order of the pool, and then the end, and returns 0 whatever the sends answer.
    pub get_running_sessions-each :
        {peak : ℕ} {m : Manager} (t : T)
        → History peak m
        → host.pool t ≡ m.session_pool
        → get_running_sessions host t
          ≡ some (pos 0, send_each_session after host.describe m.session_pool t)
    unfolding get_running_sessions
    get_running_sessions-each {m = m} t h e = rw (ap get_current_ids e) (
        send_sessions-each [] m.session_pool t e (λ i. omega (arith, held_once i))
          (λ i. History-none_null i h))
      where
        held_once : (i : ℕ) → held i m.session_pool ≤ 1
        held_once i = ground (arith, (History-IsValid h).ids i)
