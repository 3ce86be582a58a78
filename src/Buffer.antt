-- ===== src/Buffer.antt =====
-- core/commands.hpp: `Buffer`, a block of bytes with a read position, and `Command`.
use koheron_server.Base.{
  ℕ, ◌+◌, ◌*◌, ◌^◌, ◌<◌, ◌≡◌, refl, Option, none, some, List, [], ◌∷◌, ◌++◌, leb, if◌then◌else◌,
  length, take, drop, ◌>>=◌, ℤ, pos, minus_one, drop-prefix,
}
use koheron_server.Serializer.Scalar.{Scalar, uint16, size_of, append}
use koheron_server.Serializer.Tuple.{
  Tuple, TupleFits, required_buffer_size, deserialize, encode, deserialize-encode,
}
use koheron_server.Serializer.Command.Wire.{header}

-- `bytes` is `_data`.
pub record Buffer : Type 0 where
  pub bytes : List ℕ
  pub position : ℕ

-- The memory from `begin()` on.
abbrev pub begin : Buffer → List ℕ
begin b = drop b.position b.bytes

abbrev pub advance : ℕ → Buffer → Buffer
advance n b = record b { position = b.position + n }

-- `Buffer::deserialize<Tp...>()`
unfoldable pub deserialize_next : (ts : List Scalar) → Buffer → Option (Tuple ts × Buffer)
deserialize_next ts b =
    deserialize 0 ts (begin b) >>= λ vs. some (vs, advance (required_buffer_size ts) b)

-- The next `n` bytes as they lie in memory; `none` where they pass the end of the buffer.
unfoldable pub next_bytes : ℕ → Buffer → Option (List ℕ × Buffer)
next_bytes n b =
    if leb (b.position + n) (length b.bytes) then some (take n (begin b), advance n b) else none

-- `extract_array<T, N>()`, with `size_of<T, N>` bytes.
unfoldable pub extract_array : Scalar → ℕ → Buffer → Option (List ℕ × Buffer)
unfolding next_bytes
extract_array t n b = next_bytes (size_of t * n) b

-- `to_vector(vec, length)`, with elements of `size` bytes.
unfoldable pub to_vector : ℕ → ℕ → Buffer → Option (List ℕ × Buffer)
unfolding next_bytes
to_vector size n b = next_bytes (n * size) b

-- `to_string(str, length)`
unfoldable pub to_string : ℕ → Buffer → Option (List ℕ × Buffer)
unfolding next_bytes
to_string n b = next_bytes n b

abbrev pub header_size : ℕ
header_size = 8

abbrev pub header_start : ℕ
header_start = 4

-- The pointer to the session is not kept: `sess_id` names the session.
pub record Command : Type 0 where
  pub sess_id : ℤ
  pub device : ℕ
  pub operation : ℤ
  pub header_buffer : Buffer
  pub payload : Buffer

-- A new command. Its buffers are not initialised: `junk` and `rest` are what the memory held.
abbrev pub new_command : List ℕ → List ℕ → Command
new_command junk rest = record {
  sess_id = minus_one;
  device = 0;
  operation = minus_one;
  header_buffer = record { bytes = junk; position = header_start };
  payload = record { bytes = rest; position = 0 };
}

-- HEADER_TYPE_LIST
abbrev pub id_types : List Scalar
id_types = uint16 ∷ uint16 ∷ []

-- The part of `read_command` that both session types share: the device and the operation from
-- the header, for the session `id`.
unfoldable pub decode_header : ℤ → Command → Option Command
decode_header id cmd = deserialize_next id_types cmd.header_buffer >>= λ (ids, buffer).
    some
      (record cmd { sess_id = id; device = ids.0; operation = pos ids.1.0; header_buffer = buffer })

-- Reading a tuple of values in their types' ranges that stands at a buffer's position gives its
-- values and moves behind it.
pub deserialize_next-encode :
    (ts : List Scalar) (vs : Tuple ts) (front rest : List ℕ)
    → TupleFits ts vs
    → deserialize_next ts
        (record { bytes = front ++ (encode ts vs ++ rest); position = length front })
      ≡ some (
        vs,
        record {
          bytes = front ++ (encode ts vs ++ rest);
          position = length front + required_buffer_size ts;
        },
      )
unfolding deserialize_next
deserialize_next-encode ts vs front rest h = rw (
  drop-prefix (length front) front (encode ts vs ++ rest) refl,
  deserialize-encode ts vs 0 [] rest refl h,
)

-- A command whose header buffer holds the bytes of a header, as a session receives it.
abbrev pub with_header : ℕ → ℕ → Command → Command
with_header class_id func_id cmd = record cmd {
  header_buffer = record { bytes = header class_id func_id; position = header_start };
}

-- The header that `build_command` writes is decoded to its class as the device and its function as
-- the operation, for every class and function that fit into a uint16_t.
pub decode_header-header :
    (class_id func_id : ℕ) (id : ℤ) (cmd : Command)
    → class_id < 2 ^ 16
    → func_id < 2 ^ 16
    → decode_header id (with_header class_id func_id cmd)
      ≡ some (record cmd {
        sess_id = id;
        device = class_id;
        operation = pos func_id;
        header_buffer = record { bytes = header class_id func_id; position = header_size };
      })
unfolding decode_header deserialize_next encode append
decode_header-header class_id func_id id cmd h k =
    rw (deserialize-encode id_types (class_id, (func_id, tt)) 0 [] [] refl (h, (k, tt)))
