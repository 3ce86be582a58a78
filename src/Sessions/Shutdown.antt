-- ===== src/Sessions/Shutdown.antt =====
-- What the order of the steps can do to sessions while `delete_all` runs.
use koheron_server.Base.{ℕ, ◌≡◌, refl, none, some, [], ◌∷◌, arith, true}
use koheron_server.PubSub.{contains}
use koheron_server.Sessions.{
  Kind, kind_of, new_manager, insert, erase, lookup, create_session, delete_session,
}
use koheron_server.Sessions.Threads.{
  starting, running, finished, System, ThreadStep, new_system, after_create, after_end, spawns,
  creates, ends, kills, deletes, Reach, begin, next,
}

-- For any kinds and descriptors of two clients there is an order of the steps in which `delete_all`
-- deletes the session of the first, whose thread still runs, and a thread for the second is given
-- the same id, which is bound to the second's session then. The end of the first thread is a next
-- step, and it deletes that session: the second thread still runs, the id is bound to nothing and
-- the second's descriptor is closed.
pub session_stolen :
    (kind kind' : Kind) (fd fd' : ℕ)
    → (sid : ℕ) × (s : System) × Reach s
      × (s.threads ≡ running sid kind' fd' ∷ running sid kind fd ∷ [])
      × (lookup sid s.manager.session_pool
          ≡ some (some (record { kind = kind_of kind'; comm_fd = fd' })))
      × (s.manager.closed ≡ fd ∷ [])
      × (let s' = after_end sid (running sid kind' fd' ∷ []) [] s in
          ThreadStep s s'
          × (s'.threads ≡ running sid kind' fd' ∷ finished ∷ [])
          × (lookup sid s'.manager.session_pool ≡ none)
          × (s'.manager.closed ≡ fd' ∷ fd ∷ []))
unfolding new_system new_manager create_session delete_session insert erase lookup contains
session_stolen kind kind' fd fd' =
    let s₁ = record new_system { threads = starting kind fd ∷ [] } in
    let s₂ = after_create kind fd [] [] s₁ in
    let s₃ = record s₂ { killed = true; doomed = 0 ∷ [] } in
    let s₄ = record s₃ { manager = delete_session 0 s₃.manager; doomed = [] } in
    let s₅ = record s₄ { threads = starting kind' fd' ∷ s₄.threads } in
    let s₆ = after_create kind' fd' [] (running 0 kind fd ∷ []) s₅ in
    (
      0,
      s₆,
      next
          (next
            (next
              (next
                (next (next begin (spawns kind fd refl))
                  (creates kind fd [] [] refl (omega arith) refl))
                (kills refl refl))
              (deletes 0 [] refl refl))
            (spawns kind' fd' refl))
          (creates kind' fd' [] (running 0 kind fd ∷ []) refl (omega arith) refl),
      refl,
      refl,
      refl,
      (ends 0 kind fd (running 0 kind' fd' ∷ []) [] refl refl, refl, refl, refl),
    )
