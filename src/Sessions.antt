-- ===== src/Sessions.antt =====
-- core/session_manager.hpp and core/session_manager.cpp: the pool of sessions and their ids.
-- `std::map` is an association list in the order of its keys; the back of the vector
-- `reusable_ids` is the head of its list. The mutex makes each operation one step.
pub mod Pool
pub mod Invariant
pub mod History
pub mod Spec
pub mod Threads
pub mod Owners
pub mod Shutdown
use koheron_server.Base.{
  ℕ, suc, ◌+◌, ◌-◌, ◌%◌, ◌^◌, Option, none, some, List, [], ◌∷◌, map, ltb, ◌==◌, if◌then◌else◌,
  Bool, true, false,
}
use koheron_server.PubSub.{Subscribers, contains, no_subscribers, unsubscribe}

pub data Kind : Type 0 where
  tcp unix websock : Kind

-- The kind that a session's object has. `Session<UNIX>` is a `Session<TCP>`, whose constructor names
-- TCP.
abbrev pub kind_of : Kind → Kind
kind_of tcp = tcp
kind_of unix = tcp
kind_of websock = websock

pub record Session : Type 0 where
  pub kind : Kind
  pub comm_fd : ℕ

-- A `unique_ptr` may be null.
abbrev pub Pool : Type 0
Pool = List (ℕ × Option Session)

-- `closed` lists the descriptors given to `close`, the last one first. `subscribers` is the part of
-- the log's PubSub that `delete_session` changes.
pub record Manager : Type 0 where
  pub session_pool : Pool
  pub reusable_ids : List ℕ
  pub num_sess : ℕ
  pub subscribers : Subscribers
  pub closed : List ℕ

unfoldable pub new_manager : Manager
new_manager = record {
  session_pool = [];
  reusable_ids = [];
  num_sess = 0;
  subscribers = no_subscribers;
  closed = [];
}

-- `session_pool.insert`: nothing is inserted if the key is there.
unfoldable pub insert : ℕ → Option Session → Pool → Pool
insert k v [] = (k, v) ∷ []
insert k v ((j, w) ∷ m) =
    let rest = insert k v m in
    if k == j then (j, w) ∷ m else if ltb k j then (k, v) ∷ (j, w) ∷ m else (j, w) ∷ rest

-- `session_pool.erase`
unfoldable pub erase : ℕ → Pool → Pool
erase k [] = []
erase k ((j, w) ∷ m) = if j == k then m else (j, w) ∷ erase k m

-- `session_pool.find`
unfoldable pub lookup : ℕ → Pool → Option (Option Session)
lookup k [] = none
lookup k ((j, w) ∷ m) = if j == k then some w else lookup k m

-- `get_current_ids`
abbrev pub get_current_ids : Pool → List ℕ
get_current_ids [] = []
get_current_ids ((k, w) ∷ m) = k ∷ get_current_ids m

-- `is_current_id`
abbrev pub is_current_id : Manager → ℕ → Bool
is_current_id m id = contains id (get_current_ids m.session_pool)

-- The id of a new session and the ids that stay reusable.
abbrev choose_id : List ℕ → ℕ → ℕ × List ℕ
choose_id [] num_sess = (num_sess, [])
choose_id (id ∷ ids) num_sess = (id, ids)

-- `create_session<sock_type>(config, comm_fd)`; `num_sess` is an unsigned int.
unfoldable pub create_session : Kind → ℕ → Manager → ℕ × Manager
create_session kind comm_fd m =
    let (new_id, ids) = choose_id m.reusable_ids m.num_sess in
    (
      new_id,
      record m {
        session_pool =
            insert new_id (some (record { kind = kind_of kind; comm_fd = comm_fd })) m.session_pool;
        reusable_ids = ids;
        num_sess = (m.num_sess + 1) % 2 ^ 32;
      },
    )

-- The socket of a session is closed, unless its pointer is null.
abbrev close_socket : Option (Option Session) → List ℕ → List ℕ
close_socket (some (some s)) closed = s.comm_fd ∷ closed
close_socket _ closed = closed

-- `delete_session(id)`
unfoldable pub delete_session : ℕ → Manager → Manager
delete_session id m =
    if is_current_id m id
    then record m {
      session_pool = erase id m.session_pool;
      reusable_ids = id ∷ m.reusable_ids;
      num_sess = (m.num_sess + 2 ^ 32 - 1) % 2 ^ 32;
      subscribers = unsubscribe id m.subscribers;
      closed = close_socket (lookup id m.session_pool) m.closed;
    }
    else m

delete_each : List ℕ → Manager → Manager
delete_each [] m = m
delete_each (id ∷ ids) m = delete_each ids (delete_session id m)

-- `delete_all()`
pub delete_all : Manager → Manager
unfolding delete_each
delete_all m = delete_each (get_current_ids m.session_pool) m
