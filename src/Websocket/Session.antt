-- ===== src/Websocket/Session.antt =====
-- `Session<WEBSOCK>` of core/kserver_session.hpp: arrays, vectors, strings and tuples from the
-- payload of a command. `none` stands for a read past the end of the payload's buffer.
pub mod Arguments
pub mod Requests
use koheron_server.Base.{
  ℕ, ◌+◌, ◌*◌, ◌/◌, Option, none, some, List, [], ◌∷◌, ltb, if◌then◌else◌, ◌>>=◌, ℤ, pos, minus_one,
  Bool, true, false,
}
use koheron_server.Serializer.Scalar.{Scalar, uint32}
use koheron_server.Serializer.Tuple.{Tuple}
use koheron_server.Buffer.{Buffer, Command, deserialize_next, extract_array, to_vector, to_string}

abbrev pub cmd_payload_buffer_len : ℕ
cmd_payload_buffer_len = 131072

-- The result, the bytes taken and the command.
abbrev Taken : Type 0
Taken = ℤ × List ℕ × Command

abbrev pub taken : Command → List ℕ × Buffer → Option Taken
taken cmd (bytes, payload) = some (pos 0, bytes, record cmd { payload = payload })

-- `recv(std::array<T, N>&, cmd)`
unfoldable pub recv_array : Scalar → ℕ → Command → Option (ℤ × List ℕ × Command)
recv_array t n cmd = extract_array t n cmd.payload >>= taken cmd

-- `recv(std::vector<T>&, cmd)`, T of `size` bytes.
unfoldable pub recv_vector : ℕ → Command → Option (ℤ × List ℕ × Command)
recv_vector size cmd = deserialize_next (uint32 ∷ []) cmd.payload >>= λ (len, payload).
    if ltb cmd_payload_buffer_len len.0
    then some (minus_one, [], record cmd { payload = payload })
    else (to_vector size (len.0 / size) payload >>= taken cmd)

-- `recv(std::string&, cmd)`
unfoldable pub recv_string : Command → Option (ℤ × List ℕ × Command)
recv_string cmd = deserialize_next (uint32 ∷ []) cmd.payload >>= λ (len, payload).
    if ltb cmd_payload_buffer_len len.0
    then some (minus_one, [], record cmd { payload = payload })
    else (to_string len.0 payload >>= taken cmd)

-- `deserialize<Tp...>(cmd, ...)`
unfoldable pub deserialize_tuple : (ts : List Scalar) → Command → Option (ℤ × Tuple ts × Command)
deserialize_tuple [] cmd = some (pos 0, tt, cmd)
deserialize_tuple (t ∷ ts) cmd = deserialize_next (t ∷ ts) cmd.payload >>= λ (vs, payload).
    some (pos 0, vs, record cmd { payload = payload })
