-- ===== src/Examples/Threads.antt =====
-- Two threads that run sessions, one of which is a Unix socket's.
use koheron_server.Base.{ℕ, ◌+◌, ◌^◌, ◌<◌, ◌≡◌, ◌≢◌, refl, some, none, [], ◌∷◌, ◌++◌, arith, false}
use koheron_server.Sessions.{
  tcp, unix, websock, Manager, new_manager, insert, lookup, create_session,
}
use koheron_server.Sessions.Pool.{held}
use koheron_server.Sessions.Invariant.{total}
use koheron_server.Sessions.History.{History, start, create}
use koheron_server.Sessions.History as H
use koheron_server.Sessions.Spec.{History-no_unix}
use koheron_server.Sessions.Threads.{
  starting, running, finished, System, new_system, after_create, after_end, ThreadStep, spawns,
  creates, Reach, begin, next,
}
use koheron_server.Sessions.Owners.{serving, Reach-own_session}
use koheron_server.Sessions.Shutdown.{session_stolen}

abbrev one_spawned : System
one_spawned = record new_system { threads = starting unix 5 ∷ [] }

abbrev one_running : System
one_running = after_create unix 5 [] [] one_spawned

abbrev two_spawned : System
two_spawned = record one_running { threads = starting websock 6 ∷ one_running.threads }

abbrev two_running : System
two_running = after_create websock 6 [] (running 0 unix 5 ∷ []) two_spawned

two_reached : Reach two_running
unfolding new_system new_manager create_session insert
two_reached =
    next
      (next (next (next begin (spawns unix 5 refl)) (creates unix 5 [] [] refl (omega arith) refl))
        (spawns websock 6 refl))
      (creates websock 6 [] (running 0 unix 5 ∷ []) refl (omega arith) refl)

two_threads : two_running.threads ≡ (running 1 websock 6 ∷ []) ++ (running 0 unix 5 ∷ [])
unfolding new_system new_manager create_session insert
two_threads = refl

still_alive : two_running.killed ≡ false
unfolding new_system
still_alive = refl

Reach-own_session_example :
    (lookup 0 two_running.manager.session_pool ≡ some (some (record { kind = tcp; comm_fd = 5 })))
    × (serving 0 (running 1 websock 6 ∷ []) ≡ 0)
    × ((i : ℕ) → held i two_running.manager.session_pool ≡ serving i two_running.threads)
Reach-own_session_example =
    Reach-own_session 0 unix 5 (running 1 websock 6 ∷ []) [] two_reached still_alive two_threads

session_stolen_example :
    (sid : ℕ) × (s : System) × Reach s
    × (s.threads ≡ running sid websock 7 ∷ running sid tcp 5 ∷ [])
    × (lookup sid s.manager.session_pool ≡ some (some (record { kind = websock; comm_fd = 7 })))
    × (s.manager.closed ≡ 5 ∷ [])
    × (let s' = after_end sid (running sid websock 7 ∷ []) [] s in
        ThreadStep s s'
        × (s'.threads ≡ running sid websock 7 ∷ finished ∷ [])
        × (lookup sid s'.manager.session_pool ≡ none)
        × (s'.manager.closed ≡ 7 ∷ 5 ∷ []))
session_stolen_example = session_stolen tcp websock 5 7

abbrev unix_session : Manager
unix_session = (create_session unix 5 new_manager).1

unix_room : total new_manager + 1 < 2 ^ 31
unfolding new_manager
unix_room = omega arith

unix-History : History 1 unix_session
unfolding new_manager create_session
unix-History = H.next start (create unix 5 unix_room)

unix_found : lookup 0 unix_session.session_pool ≡ some (some (record { kind = tcp; comm_fd = 5 }))
unfolding new_manager create_session insert lookup
unix_found = refl

History-no_unix_example : tcp ≢ unix
History-no_unix_example =
    History-no_unix 0 (record { kind = tcp; comm_fd = 5 }) unix-History unix_found
