-- ===== src/Examples/Management.antt =====
-- Sessions that come and go, and their subscriptions.
use koheron_server.Base.{
  ℕ, ◌<◌, ◌≡◌, ◌+◌, ◌^◌, refl, true, false, Option, some, List, [], ◌∷◌, arith, count, ◌==◌,
  if◌then◌else◌, ℤ, pos, minus_one, is_neg,
}
use koheron_server.PubSub.{Subscribers, channel, contains, subscribe, unsubscribe, emit}
use koheron_server.PubSub.Emission.{any_error, send_each, emit-each}
use koheron_server.Sessions.{
  tcp, websock, Manager, new_manager, insert, erase, create_session, delete_session,
}
use koheron_server.Sessions.Pool.{held}
use koheron_server.Sessions.Invariant.{IsValid, total}
use koheron_server.Sessions.Spec.{SpecStep, closes, view, Step-SpecStep}
use koheron_server.Sessions.History.{
  create, delete, subscribes, History, start, next, History-IsValid, History-id_lt,
}

-- Two sessions are created, the second subscribes to channel 2, and the first is deleted.
abbrev pub one_session : Manager
one_session = (create_session tcp 5 new_manager).1

abbrev pub two_sessions : Manager
two_sessions = (create_session websock 6 one_session).1

abbrev pub with_subscriber : Manager
with_subscriber = record two_sessions { subscribers = (subscribe 2 1 two_sessions.subscribers).1 }

abbrev pub first_deleted : Manager
first_deleted = delete_session 0 with_subscriber

first_room : total new_manager + 1 < 2 ^ 31
unfolding new_manager
first_room = omega arith

second_room : total one_session + 1 < 2 ^ 31
unfolding new_manager create_session
second_room = omega arith

second_held : 0 < held 1 two_sessions.session_pool
unfolding new_manager create_session insert
second_held = omega arith

pub before_deletion : History 2 with_subscriber
unfolding new_manager create_session insert
before_deletion =
    next (next (next start (create tcp 5 first_room)) (create websock 6 second_room))
      (subscribes 2 1 second_held)

pub history : History 2 first_deleted
unfolding new_manager create_session delete_session insert erase contains
history = next before_deletion (delete 0)

still_held : 0 < held 1 first_deleted.session_pool
unfolding new_manager create_session delete_session insert erase contains
still_held = omega arith

still_subscribed : 0 < count 1 (channel 2 first_deleted.subscribers)
unfolding new_manager create_session delete_session insert erase contains subscribe unsubscribe
still_subscribed = omega arith

few_sessions : first_deleted.num_sess + 1 < 2 ^ 32
unfolding new_manager create_session delete_session insert erase contains
few_sessions = omega arith

History-IsValid_example : IsValid first_deleted
History-IsValid_example = History-IsValid history

Step-SpecStep_example : SpecStep (closes 0) (view with_subscriber) (view first_deleted)
Step-SpecStep_example = Step-SpecStep before_deletion (delete 0)

History-id_lt_example : 1 < 2
History-id_lt_example = History-id_lt 1 history still_held

abbrev some_subscribers : Subscribers
some_subscribers = (4 ∷ 9 ∷ []) ∷ (9 ∷ []) ∷ [] ∷ []

-- Session 4 answers with an error; the list holds the sessions that were sent to, the last one first.
abbrev answer : ℕ → ℤ
answer sid = if sid == 4 then minus_one else pos 1

abbrev send_to : ℕ → List ℕ → Option (ℤ × List ℕ)
send_to sid t = some (answer sid, sid ∷ t)

emit-each_example :
    (r : ℤ) × (emit send_to false 0 some_subscribers [] ≡ some (r, send_each ◌∷◌ (4 ∷ 9 ∷ []) []))
    × (is_neg r ≡ any_error answer (4 ∷ 9 ∷ []))
emit-each_example =
    emit-each send_to answer ◌∷◌ (λ sid. true) (λ sid t h. refl) 0 some_subscribers []
      (refl, (refl, tt))
