-- ===== src/Tcp/Session.antt =====
-- `Session<TCP>` of core/kserver_session.cpp and core/kserver_session.hpp: commands, arrays,
-- vectors, strings and tuples from the socket, and commands to it. Messages to the log are left
-- out. `none` stands for a read past the end of a buffer.
pub mod Commands
pub mod Containers
pub mod Arguments
use koheron_server.Base.{
  ℕ, zero, suc, ◌+◌, ◌-◌, ◌*◌, ◌/◌, ◌%◌, ◌^◌, ◌≤◌, ◌<◌, ◌≡◌, refl, Option, none, some, List, [],
  ◌∷◌, ◌++◌, arith, ltb, leb, ◌==◌, if◌then◌else◌, ◌||◌, length, take, drop, ◌>>=◌, ℤ, pos, negsuc,
  minus_one, is_neg, of_bits, Bool, true, false,
}
use koheron_server.Serializer.Scalar.{Scalar, uint32, size_of}
use koheron_server.Serializer.Tuple.{Tuple, required_buffer_size, deserialize}
use koheron_server.Serializer.Command.{Arg, Serializer, build_command}
use koheron_server.Buffer.{Buffer, Command, header_size, decode_header}
use koheron_server.Tcp.Receive.{ReadResult, to_int, rcv_n_bytes}

-- Memory after `bytes` were stored at its start.
abbrev pub fill : List ℕ → List ℕ → List ℕ
fill junk bytes = bytes ++ drop (length bytes) junk

-- `x <= 0`
abbrev pub is_not_pos : ℤ → Bool
is_not_pos (pos zero) = true
is_not_pos (pos (suc n)) = false
is_not_pos (negsuc n) = true

-- A signed 64-bit value in unsigned arithmetic.
abbrev pub to_u64 : ℤ → ℕ
to_u64 (pos n) = n % 2 ^ 64
to_u64 (negsuc n) = (2 ^ 64 - 1 - n) % 2 ^ 64

-- How a `recv` ends: with its result, the bytes stored and the socket, or because `resize` throws.
pub data Recv (S : Type 0) : Type 0 where
  returned : ℤ → List ℕ → S → Recv S
  thrown : S → Recv S

abbrev returns : {S : Type 0} → ℤ × List ℕ × S → Option (Recv S)
returns (code, bytes, s) = some (returned code bytes s)

abbrev load_header : List ℕ → Command → Command
load_header bytes cmd = record cmd { header_buffer = record b { bytes = fill b.bytes bytes } }
  where
    open cmd use {header_buffer as b}

module _ {S : Type 0} (read : S → ℕ → ReadResult × S) where
  -- `read_command`, for the session `id`.
  unfoldable pub read_command : ℤ → Command → S → Option (ℤ × Command × S)
  read_command id cmd s = rcv_n_bytes read header_size s >>= λ (header_bytes, bytes, s').
      let cmd' = load_header bytes cmd in
      if is_not_pos header_bytes
      then some (header_bytes, cmd', s')
      else (decode_header id cmd' >>= λ cmd''. some (header_bytes, cmd'', s'))

  -- `get_pack_length`. Its buffer is not initialised: `junk` is what the memory held. A connection
  -- that closes gives 0, which passes for no error.
  unfoldable pub get_pack_length : List ℕ → S → Option (ℤ × S)
  get_pack_length junk s = rcv_n_bytes read 4 s >>= λ (err, bytes, s').
      if is_neg err
      then some (minus_one, s')
      else (deserialize 0 (uint32 ∷ []) (fill junk bytes) >>= λ len. some (pos len.0, s'))

  -- `recv(std::array<T, N>&, cmd)`
  unfoldable pub recv_array : Scalar → ℕ → S → Option (Recv S)
  recv_array t n s = rcv_n_bytes read (size_of t * n) s >>= returns

  -- `deserialize<Tp...>(cmd, ...)`: the error and the values of the buffer, whatever the error is.
  unfoldable pub deserialize_tuple : List ℕ → (ts : List Scalar) → S → Option (ℤ × Tuple ts × S)
  deserialize_tuple junk [] s = some (pos 0, tt, s)
  deserialize_tuple junk (t ∷ ts) s =
      rcv_n_bytes read (required_buffer_size (t ∷ ts)) s >>= λ (err, bytes, s').
      deserialize 0 (t ∷ ts) (fill junk bytes) >>= λ vs. some (err, vs, s')

  -- `resize` throws for a length that the library cannot allocate: `can_resize` says for which not.
  module _ (can_resize : ℕ → Bool) where
    -- The rest of `recv` once the length is known: `n` elements of `size` bytes.
    unfoldable pub resize_and_receive : ℕ → ℕ → S → Option (Recv S)
    resize_and_receive n size s =
        if can_resize n
        then (rcv_n_bytes read (n * size % 2 ^ 64) s >>= returns)
        else some (thrown s)

    -- `recv(std::vector<T>&, cmd)`, T of `size` bytes. The quotient is unsigned, so the test
    -- `length < 0` never holds.
    unfoldable pub recv_vector : List ℕ → ℕ → S → Option (Recv S)
    recv_vector junk size s =
        get_pack_length junk s >>= λ (pack, s'). resize_and_receive (to_u64 pack / size) size s'

    -- `recv(std::string&, cmd)`
    unfoldable pub recv_string : List ℕ → S → Option (Recv S)
    recv_string junk s = get_pack_length junk s >>= λ (len, s').
        if is_neg len then some (returned minus_one [] s') else resize_and_receive (to_u64 len) 1 s'

-- `write`: from the number of bytes to send and what the system call `write` gave.
unfoldable pub write : ℕ → ℤ → ℤ
write bytes_send (negsuc n) = minus_one
write bytes_send (pos zero) = pos 0
write bytes_send (pos (suc n)) = if suc n == bytes_send then pos bytes_send else minus_one

pub data Status : Type 0 where
  closed opened : Status

-- The part of a session that `send` uses.
pub record Output : Type 0 where
  pub send_buffer : List ℕ
  pub dyn_ser : Serializer
  pub status : Status

-- `status = CLOSED` if no byte was sent.
abbrev pub after_write : ℤ → Output → Output
after_write (pos zero) o = record o { status = closed }
after_write _ o = o

-- `send<class_id, func_id>(args...)`, where the system call answers `sent` to the bytes given to it.
unfoldable pub send : ℕ → ℕ → List Arg → (List ℕ → ℤ) → Output → Option (ℤ × Output)
send class_id func_id args sent o =
    build_command class_id func_id args (o.dyn_ser, o.send_buffer) >>= λ (ser, buffer).
    let bytes_send = write (length buffer) (sent buffer) in
    some (bytes_send, after_write bytes_send (record o { send_buffer = buffer; dyn_ser = ser }))
