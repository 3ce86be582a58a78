-- ===== src/Serializer/Command.antt =====
-- core/serializer_deserializer.hpp, lines 319 to 565: `DynamicSerializer`, which builds the
-- commands that the server sends. The overloads of `command_serializer` are the constructors of
-- `Arg`. A vector, a string or an array is given by its bytes, `size() * sizeof(T)` of them, and a
-- C string by the characters before its end.
pub mod Wire
use koheron_server.Base.{
  ℕ, ◌+◌, ◌-◌, ◌%◌, ◌^◌, ◌≤◌, ◌<◌, ◌≡◌, refl, sym, ap, ◌∙◌, Bool, true, false, Option, none, some,
  List, [], ◌∷◌, ◌++◌, arith, ltb, leb, ◌&&◌, if◌then◌else◌, length, take, drop, replicate,
  append_assoc, append-nil, length-append, length-drop, length-take, length-replicate, take-length,
  ◌>>=◌, inl, inr, Bool-cases,
}
use mathlib.Core.Option
use koheron_server.Serializer.Scalar.{
  Scalar, Value, uint32, uint16, size_of, append, length-append_scalar,
}
use koheron_server.Serializer.Tuple.{
  Tuple, required_buffer_size, write_at, serialize, serialize-eq-encode, encode, length-encode,
}

pub data Arg : Type 0 where
  scalar : (t : Scalar) → Value t → Arg
  container : List ℕ → Arg
  array : List ℕ → Arg
  c_string : List ℕ → Arg

-- The scalar pack: `scal_data` is the array of SCALAR_PACK_LEN bytes, `scal_size` the bytes in use.
pub record Serializer : Type 0 where
  pub scal_data : List ℕ
  pub scal_size : ℕ

-- The pack and the buffer that the command is built in.
abbrev pub State : Type 0
State = Serializer × List ℕ

-- `append(t)`: `none` where the scalar would be written past the end of `scal_data`.
append_scalar : (t : Scalar) → Value t → Serializer → Option Serializer
append_scalar t v s = write_at s.scal_size (append t v) s.scal_data >>= λ bytes.
    some (record { scal_data = bytes; scal_size = s.scal_size + size_of t })

dump_scalar_pack : State → State
dump_scalar_pack (s, buffer) =
    if ltb 0 s.scal_size
    then (record s { scal_size = 0 }, buffer ++ take s.scal_size s.scal_data)
    else (s, buffer)

-- `n_bytes` is a uint32_t; that many bytes are inserted behind it.
dump_container_to_buffer : List ℕ → List ℕ → List ℕ
dump_container_to_buffer buffer bytes =
    let n_bytes = length bytes % 2 ^ 32 in
    let sized = buffer ++ append uint32 n_bytes in
    if ltb 0 n_bytes then sized ++ take n_bytes bytes else sized

dump_array_to_buffer : List ℕ → List ℕ → List ℕ
dump_array_to_buffer buffer bytes = if ltb 0 (length bytes) then buffer ++ bytes else buffer

-- A container in the state: the pack goes out first.
serialize_container : List ℕ → State → State
serialize_container bytes st =
    let (s, buffer) = dump_scalar_pack st in (s, dump_container_to_buffer buffer bytes)

serialize_array : List ℕ → State → State
serialize_array bytes st =
    let (s, buffer) = dump_scalar_pack st in (s, dump_array_to_buffer buffer bytes)

pub command_serializer : List Arg → State → Option State
command_serializer [] st = some st
command_serializer (scalar t v ∷ args) (s, buffer) =
    append_scalar t v s >>= λ s'. command_serializer args (s', buffer)
command_serializer (container bytes ∷ args) st =
    command_serializer args (serialize_container bytes st)
command_serializer (array bytes ∷ args) st = command_serializer args (serialize_array bytes st)
command_serializer (c_string chars ∷ args) st =
    command_serializer args (serialize_container chars st)

abbrev pub header_types : List Scalar
header_types = uint32 ∷ uint16 ∷ uint16 ∷ []

-- `buffer.resize(n)`
abbrev resize : ℕ → List ℕ → List ℕ
resize n buffer = take n buffer ++ replicate (n - length buffer) 0

-- The reserved word, the class and the function, moved to the start of the resized buffer.
put_header : ℕ → ℕ → List ℕ → Option (List ℕ)
put_header class_id func_id buffer =
    serialize header_types (0, (class_id, (func_id, tt)))
      (replicate (required_buffer_size header_types) 0)
    >>= λ header. write_at 0 header (resize (required_buffer_size header_types) buffer)

-- The arguments behind a header, and the last scalar pack.
finish_command : List Arg → State → Option State
unfolding command_serializer
finish_command args st = Option.map dump_scalar_pack (command_serializer args st)

-- `build_command`: the overload with no argument leaves the pack alone. A tuple is unpacked.
pub build_command : ℕ → ℕ → List Arg → State → Option State
unfolding put_header finish_command
build_command class_id func_id [] (s, buffer) =
    put_header class_id func_id buffer >>= λ buffer'. some (s, buffer')
build_command class_id func_id (a ∷ args) (s, buffer) =
    put_header class_id func_id buffer >>= λ buffer'.
    finish_command (a ∷ args) (record s { scal_size = 0 }, buffer')
