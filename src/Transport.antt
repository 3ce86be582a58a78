-- ===== src/Transport.antt =====
-- `SessionAbstract` and `Session<UNIX>` of core/kserver_session.hpp: a device takes its arguments
-- from a session of any kind by one interface, which selects the kind's own functions.
pub mod Items
pub mod Sockets
pub mod Payloads
pub mod Agreement
pub mod Sending
use koheron_server.Base.{
  ℕ, ◌*◌, ◌/◌, Option, none, some, List, [], ◌∷◌, leb, ◌&&◌, if◌then◌else◌, ◌>>=◌, ℤ, is_neg,
  length, take, drop, Bool, true, false,
}
use koheron_server.Serializer.Scalar.{Scalar, uint32, size_of}
use koheron_server.Serializer.Tuple.{Tuple, required_buffer_size, deserialize}
use koheron_server.Buffer.{Command}
use koheron_server.Tcp.Receive.{ReadResult}
use koheron_server.Tcp.Session.{Recv, returned, thrown}
use koheron_server.Tcp.Session as Tcp
use koheron_server.Websocket.Session as Websock
use koheron_server.Sessions.{Kind, tcp, unix, websock}

-- What a device asks a session for: the values of a tuple, a string, a vector with elements of the
-- given size, or an array.
pub data Request : Type 0 where
  tuple : List Scalar → Request
  string : Request
  vector : ℕ → Request
  array : Scalar → ℕ → Request

pub data Item : Type 0 where
  values : (ts : List Scalar) → Tuple ts → Item
  bytes : List ℕ → Item

-- The socket is kept beside the command, over which a WebSocket session leaves it alone.
abbrev pub with_command : {S : Type 0} → Command → Recv S → Recv (Command × S)
with_command cmd (returned code bs s) = returned code bs (cmd, s)
with_command cmd (thrown s) = thrown (cmd, s)

abbrev pub with_socket : {S : Type 0} → S → ℤ × List ℕ × Command → Recv (Command × S)
with_socket s (code, bs, cmd) = returned code bs (cmd, s)

module _ {S : Type 0} (read : S → ℕ → ReadResult × S) (can_resize : ℕ → Bool) (junk : List ℕ) where
  -- `SessionAbstract::deserialize<Tp...>(cmd)`
  unfoldable pub dispatch_deserialize :
      Kind → (ts : List Scalar) → Command × S → Option (ℤ × Tuple ts × Command × S)
  dispatch_deserialize websock ts (cmd, s) =
      Websock.deserialize_tuple ts cmd >>= λ (err, vs, cmd'). some (err, vs, cmd', s)
  dispatch_deserialize tcp ts (cmd, s) =
      Tcp.deserialize_tuple read junk ts s >>= λ (err, vs, s'). some (err, vs, cmd, s')
  dispatch_deserialize unix ts (cmd, s) =
      Tcp.deserialize_tuple read junk ts s >>= λ (err, vs, s'). some (err, vs, cmd, s')

  -- `recv` of `Session<TCP>`, which `Session<UNIX>` inherits.
  abbrev pub recv_socket : Request → S → Option (Recv S)
  recv_socket string s = Tcp.recv_string read can_resize junk s
  recv_socket (vector size) s = Tcp.recv_vector read can_resize junk size s
  recv_socket (array t n) s = Tcp.recv_array read t n s
  recv_socket (tuple ts) s = none

  -- `recv` of `Session<WEBSOCK>`
  abbrev pub recv_payload : Request → Command → Option (ℤ × List ℕ × Command)
  recv_payload string cmd = Websock.recv_string cmd
  recv_payload (vector size) cmd = Websock.recv_vector size cmd
  recv_payload (array t n) cmd = Websock.recv_array t n cmd
  recv_payload (tuple ts) cmd = none

  -- `SessionAbstract::recv(container, cmd)`; a tuple is no container.
  unfoldable pub dispatch_recv : Kind → Request → Command × S → Option (Recv (Command × S))
  dispatch_recv websock r (cmd, s) = recv_payload r cmd >>= λ got. some (with_socket s got)
  dispatch_recv tcp r (cmd, s) = recv_socket r s >>= λ got. some (with_command cmd got)
  dispatch_recv unix r (cmd, s) = recv_socket r s >>= λ got. some (with_command cmd got)

  -- What a device has of a result: nothing if it is an error or an exception.
  abbrev pub accept_bytes : Recv (Command × S) → Option (Item × Command × S)
  accept_bytes (returned code bs (cmd, s)) = if is_neg code then none else some (bytes bs, cmd, s)
  accept_bytes (thrown st) = none

  abbrev pub accept_values :
      (ts : List Scalar) → ℤ × Tuple ts × Command × S → Option (Item × Command × S)
  accept_values ts (err, vs, cmd, s) = if is_neg err then none else some (values ts vs, cmd, s)

  unfoldable pub perform : Kind → Request → Command × S → Option (Item × Command × S)
  unfolding dispatch_deserialize dispatch_recv
  perform kind (tuple ts) st = dispatch_deserialize kind ts st >>= accept_values ts
  perform kind string st = dispatch_recv kind string st >>= accept_bytes
  perform kind (vector size) st = dispatch_recv kind (vector size) st >>= accept_bytes
  perform kind (array t n) st = dispatch_recv kind (array t n) st >>= accept_bytes

  unfoldable pub perform_all : Kind → List Request → Command × S → Option (List Item × Command × S)
  perform_all kind [] (cmd, s) = some ([], cmd, s)
  perform_all kind (r ∷ rs) st = perform kind r st >>= λ (item, cmd, s).
      perform_all kind rs (cmd, s) >>= λ (items, cmd', s'). some (item ∷ items, cmd', s')
