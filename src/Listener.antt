-- ===== src/Listener.antt =====
-- core/listening_channel.cpp and `ListeningChannel` of core/kserver.hpp: opening sockets, the thread
-- that accepts clients and the threads of their sessions. A system call is what it answered. An int
-- counter is its pattern of 32 bits.
pub mod Threads
pub mod Schedule
pub mod Races
pub mod Setup
use koheron_server.Base.{
  ℕ, zero, suc, ◌+◌, ◌-◌, ◌%◌, ◌^◌, List, [], ◌∷◌, ltb, if◌then◌else◌, ℤ, pos, negsuc, minus_one,
  is_neg, Bool, true, false,
}

-- The descriptors that a function closes, with its result.
abbrev pub Closing : Type 0
Closing = ℤ × List ℕ

-- What the calls of `create_tcp_listening` answered.
pub record TcpAnswers : Type 0 where
  pub opened : ℤ
  pub reuse_addr : ℤ
  pub no_delay : ℤ
  pub bound : ℤ

-- `create_tcp_listening`: the options that cannot be set are only logged.
unfoldable pub create_tcp_listening : TcpAnswers → Closing
create_tcp_listening a = elim a.opened [
  | negsuc n ↦ (minus_one, [])
  | pos listen_fd ↦ if is_neg a.bound then (minus_one, listen_fd ∷ []) else (pos listen_fd, [])
]

-- `create_unix_listening`: what `socket` and `bind` answered.
unfoldable pub create_unix_listening : ℤ → ℤ → Closing
create_unix_listening opened bound = elim opened [
  | negsuc n ↦ (minus_one, [])
  | pos listen_fd ↦ if is_neg bound then (minus_one, listen_fd ∷ []) else (pos listen_fd, [])
]

-- What the calls of `setsockopt` for an accepted socket answered.
pub record OptionAnswers : Type 0 where
  pub send_buffer : ℤ
  pub receive_buffer : ℤ
  pub no_delay : ℤ

-- `set_comm_sock_opts(comm_fd, ...)`
unfoldable pub set_comm_sock_opts : ℕ → Bool → OptionAnswers → Closing
set_comm_sock_opts comm_fd tcp_nodelay a =
    if is_neg a.send_buffer
    then (minus_one, comm_fd ∷ [])
    else if is_neg a.receive_buffer
    then (minus_one, comm_fd ∷ [])
    else if tcp_nodelay
    then (if is_neg a.no_delay then (minus_one, comm_fd ∷ []) else (pos 0, []))
    else (pos 0, [])

-- `open_tcp_communication`: `accepted` is the answer of `accept`.
unfoldable pub open_tcp_communication : ℤ → Bool → OptionAnswers → Closing
unfolding set_comm_sock_opts
open_tcp_communication (negsuc n) tcp_nodelay a = (negsuc n, [])
open_tcp_communication (pos comm_fd) tcp_nodelay a =
    let (err, closed) = set_comm_sock_opts comm_fd tcp_nodelay a in
    if is_neg err then (minus_one, closed) else (pos comm_fd, closed)

-- A channel outside its threads.
pub record Endpoint : Type 0 where
  pub listen_fd : ℤ
  pub worker_connections : ℕ
  pub num_threads : ℤ

-- `ListeningChannel(kserver)`
abbrev pub new_endpoint : ℕ → Endpoint
new_endpoint n = record { listen_fd = minus_one; worker_connections = n; num_threads = minus_one }

-- `init()`, given what `create_tcp_listening` or `create_unix_listening` would return.
unfoldable pub init : ℤ → Endpoint → ℤ × Endpoint
init created e =
    if ltb 0 e.worker_connections
    then (created, record e { num_threads = pos 0; listen_fd = created })
    else (pos 0, record e { num_threads = pos 0 })

-- `__start_worker()`, given what `listen` answers, and whether the thread was started.
unfoldable pub start_worker : ℤ → Endpoint → ℤ × Bool
start_worker listened e =
    if is_neg e.listen_fd
    then (pos 0, false)
    else if is_neg listened
    then (minus_one, false)
    else (pos 0, true)

-- `shutdown()`: the descriptor that it shuts down and closes, if any.
unfoldable pub shutdown : Endpoint → List ℤ
shutdown e = if ltb 0 e.worker_connections then e.listen_fd ∷ [] else []

-- `join_worker()`: whether it joins the thread.
unfoldable pub join_worker : Endpoint → Bool
join_worker e = if is_neg e.listen_fd then false else true
