-- ===== src/Serializer/Tuple.antt =====
-- core/serializer_deserializer.hpp, lines 224 to 317: `required_buffer_size`, `deserialize` and
-- `serialize` for tuples of scalars. The template's parameter pack is a list of types.
use koheron_server.Base.{
  ℕ, ◌+◌, ◌≡◌, refl, sym, ap, Option, none, some, List, [], ◌∷◌, ◌++◌, arith, leb, if◌then◌else◌,
  length, take, drop, append_assoc, length-append, length-drop, length-take, take-prefix,
  drop-prefix, drop-prefix_two, take-append-drop, ◌>>=◌,
}
use koheron_server.Serializer.Scalar.{
  Scalar, Value, Fits, size_of, append, extract, extract-append, length-append_scalar,
}

abbrev pub Tuple : List Scalar → Type 0
Tuple [] = Unit {0}
Tuple (t ∷ ts) = Value t × Tuple ts

abbrev pub TupleFits : (ts : List Scalar) → Tuple ts → Type 0
TupleFits [] vs = Unit {0}
TupleFits (t ∷ ts) (v, vs) = Fits t v × TupleFits ts vs

abbrev pub required_buffer_size : List Scalar → ℕ
required_buffer_size [] = 0
required_buffer_size (t ∷ ts) = size_of t + required_buffer_size ts

-- `deserialize<position, Tp...>(buff)`: each value is extracted at `&buff[position]`.
unfoldable pub deserialize : ℕ → (ts : List Scalar) → List ℕ → Option (Tuple ts)
deserialize position [] buff = some tt
deserialize position (t ∷ ts) buff = extract t (drop position buff) >>= λ v.
    deserialize (position + size_of t) ts buff >>= λ vs. some (v, vs)

-- A write of `bytes` at `&buff[position]`; `none` where it would pass the end of the array.
abbrev pub write_at : ℕ → List ℕ → List ℕ → Option (List ℕ)
write_at position bytes buff =
    if leb (position + length bytes) (length buff)
    then some (take position buff ++ (bytes ++ drop (position + length bytes) buff))
    else none

-- `detail::serialize<buff_pos, I, Tp...>`: the element `I` goes to `&buff[buff_pos]`.
unfoldable pub serialize_into : ℕ → (ts : List Scalar) → Tuple ts → List ℕ → Option (List ℕ)
serialize_into buff_pos [] vs buff = some buff
serialize_into buff_pos (t ∷ ts) (v, vs) buff = write_at buff_pos (append t v) buff >>= λ buff'.
    serialize_into (buff_pos + size_of t) ts vs buff'

-- `serialize(t)`. The array is not initialised: `arr` is what the memory held before.
unfoldable pub serialize : (ts : List Scalar) → Tuple ts → List ℕ → Option (List ℕ)
serialize ts vs arr = serialize_into 0 ts vs arr

-- The values' bytes one after the other: what a serialized tuple is, with no array and positions.
unfoldable pub encode : (ts : List Scalar) → Tuple ts → List ℕ
encode [] vs = []
encode (t ∷ ts) (v, vs) = append t v ++ encode ts vs

pub length-encode :
    (ts : List Scalar) (vs : Tuple ts) → length (encode ts vs) ≡ required_buffer_size ts
unfolding encode
length-encode [] vs = refl
length-encode (t ∷ ts) (v, vs) = omega (
  arith,
  length-append (append t v) (encode ts vs),
  length-append_scalar t v,
  length-encode ts vs,
)

-- A write between a prefix and the rest of an array.
pub write_at-append :
    (front bytes old rest : List ℕ) (n : ℕ)
    → length front ≡ n
    → length old ≡ length bytes
    → write_at n bytes (front ++ (old ++ rest)) ≡ some (front ++ (bytes ++ rest))
write_at-append front bytes old rest n e f = ground (
  arith,
  length-append front (old ++ rest),
  length-append old rest,
  take-prefix n front (old ++ rest) e,
  drop-prefix_two n (length bytes) front old rest e f,
)

pub deserialize-encode :
    (ts : List Scalar) (vs : Tuple ts) (n : ℕ) (front rest : List ℕ)
    → length front ≡ n
    → TupleFits ts vs
    → deserialize n ts (front ++ (encode ts vs ++ rest)) ≡ some vs
unfolding deserialize encode
deserialize-encode [] vs n front rest e h = refl
deserialize-encode (t ∷ ts) (v, vs) n front rest e h =
    let tail =
      deserialize-encode ts vs (n + size_of t) (front ++ append t v) rest
        (omega (arith, length-append front (append t v), length-append_scalar t v)) h.1 in
    rw (
      append_assoc (append t v) (encode ts vs) rest,
      drop-prefix n front _ e,
      extract-append t v (encode ts vs ++ rest) h.0,
      ← append_assoc,
      tail,
    )

serialize_into-eq-encode :
    (ts : List Scalar) (vs : Tuple ts) (n : ℕ) (front junk : List ℕ)
    → length front ≡ n
    → length junk ≡ required_buffer_size ts
    → serialize_into n ts vs (front ++ junk) ≡ some (front ++ encode ts vs)
unfolding serialize_into encode
serialize_into-eq-encode [] vs n front [] e h = refl
serialize_into-eq-encode [] vs n front (x ∷ junk) e h = absurd (omega arith)
serialize_into-eq-encode (t ∷ ts) (v, vs) n front junk e h =
    let old = take (size_of t) junk in
    let rest = drop (size_of t) junk in
    let tail =
      serialize_into-eq-encode ts vs (n + size_of t) (front ++ append t v) rest
        (omega (arith, length-append front (append t v), length-append_scalar t v))
        (omega (arith, length-drop (size_of t) junk)) in
    let split : front ++ junk ≡ front ++ (old ++ rest) =
      ap (◌++◌ front) (sym (take-append-drop (size_of t) junk)) in
    let written =
      write_at-append front (append t v) old rest n e
        (omega (arith, length-take (size_of t) junk, length-append_scalar t v)) in
    rw (
      split,
      written,
      ← append_assoc front (append t v) rest,
      tail,
      append_assoc front (append t v) (encode ts vs),
    )

-- `serialize` fills every byte of its uninitialised array: whatever `required_buffer_size` bytes
-- the memory held, the result is the bytes of the values one after the other.
pub serialize-eq-encode :
    (ts : List Scalar) (vs : Tuple ts) (arr : List ℕ)
    → length arr ≡ required_buffer_size ts
    → serialize ts vs arr ≡ some (encode ts vs)
unfolding serialize
serialize-eq-encode ts vs arr h = serialize_into-eq-encode ts vs 0 [] arr refl h

-- `deserialize` at a position reads back the tuple that `serialize` produced there, from whatever
-- array of `required_buffer_size` bytes and whatever bytes stand before and after it, for values
-- in their types' ranges.
pub deserialize-serialize :
    (ts : List Scalar) (vs : Tuple ts) (arr front rest : List ℕ)
    → length arr ≡ required_buffer_size ts
    → TupleFits ts vs
    → (serialize ts vs arr >>= λ bytes. deserialize (length front) ts (front ++ (bytes ++ rest)))
      ≡ some vs
deserialize-serialize ts vs arr front rest h k =
    rw (serialize-eq-encode ts vs arr h) (deserialize-encode ts vs (length front) front rest refl k)
