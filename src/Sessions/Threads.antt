-- ===== src/Sessions/Threads.antt =====
-- The threads of core/listening_channel.cpp that create, run and delete sessions, with the main
-- thread of core/kserver.cpp, which deletes all sessions when it ends the server. Each operation of
-- the manager is one step, since it holds the mutex; `delete_all` is one step for each session.
-- `subscribe` does not hold the mutex, so that a deletion may change the subscribers while it runs:
-- whatever it leaves in them is a step here.
use koheron_server.Base.{ℕ, ◌+◌, ◌^◌, ◌<◌, ◌≡◌, List, [], ◌∷◌, ◌++◌, Bool, true, false}
use koheron_server.PubSub.{Subscribers}
use koheron_server.Sessions.{
  Kind, Manager, new_manager, get_current_ids, create_session, delete_session,
}
use koheron_server.Sessions.Invariant.{total}

-- Where a session's thread is: it was given a descriptor, it runs the session with the given id, or
-- it has deleted it.
pub data Thread : Type 0 where
  starting : Kind → ℕ → Thread
  running : ℕ → Kind → ℕ → Thread
  finished : Thread

-- `doomed` are the ids that `delete_all` has still to delete, once the main thread called it.
pub record System : Type 0 where
  pub manager : Manager
  pub threads : List Thread
  pub killed : Bool
  pub doomed : List ℕ

unfoldable pub new_system : System
new_system = record { manager = new_manager; threads = []; killed = false; doomed = [] }

-- A session's thread calls `create_session`, and `delete_session` when `run()` has returned.
abbrev pub after_create : Kind → ℕ → List Thread → List Thread → System → System
after_create kind fd front back s =
    let (sid, m) = create_session kind fd s.manager in
    record s { manager = m; threads = front ++ (running sid kind fd ∷ back) }

-- While sessions run, their commands also change the subscribers.
abbrev pub after_subscribe : Subscribers → System → System
after_subscribe subs s = record s { manager = record (s.manager) { subscribers = subs } }

abbrev pub after_end : ℕ → List Thread → List Thread → System → System
after_end sid front back s = record s {
  manager = delete_session sid s.manager;
  threads = front ++ (finished ∷ back);
}

-- One step of any thread. New threads come as long as the listeners run, which is until the end of
-- `delete_all` at least.
pub data ThreadStep (s s' : System) : Type 0 where
  spawns :
      (kind : Kind) (fd : ℕ)
      → s' ≡ record s { threads = starting kind fd ∷ s.threads }
      → ThreadStep s s'
  creates :
      (kind : Kind) (fd : ℕ) (front back : List Thread)
      → s.threads ≡ front ++ (starting kind fd ∷ back)
      → total s.manager + 1 < 2 ^ 31
      → s' ≡ after_create kind fd front back s
      → ThreadStep s s'
  subscribes :
      (subs : Subscribers) (sid : ℕ) (kind : Kind) (fd : ℕ) (front back : List Thread)
      → s.threads ≡ front ++ (running sid kind fd ∷ back)
      → s' ≡ after_subscribe subs s
      → ThreadStep s s'
  ends :
      (sid : ℕ) (kind : Kind) (fd : ℕ) (front back : List Thread)
      → s.threads ≡ front ++ (running sid kind fd ∷ back)
      → s' ≡ after_end sid front back s
      → ThreadStep s s'
  kills :
      s.killed ≡ false
      → s' ≡ record s { killed = true; doomed = get_current_ids s.manager.session_pool }
      → ThreadStep s s'
  deletes :
      (id : ℕ) (ids : List ℕ)
      → s.doomed ≡ id ∷ ids
      → s' ≡ record s { manager = delete_session id s.manager; doomed = ids }
      → ThreadStep s s'

pub data Reach : System → Type 0 where
  begin : Reach new_system
  next : {s s' : System} → Reach s → ThreadStep s s' → Reach s'
