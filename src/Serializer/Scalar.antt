-- ===== src/Serializer/Scalar.antt =====
-- core/serializer_deserializer.hpp, lines 14 to 222: `size_of`, `extract` and `append` for the
-- scalar types. Memory is a list of bytes; `extract` gives `none` where the code would read past
-- the memory that it is given. A floating point value is the bit pattern that `pseudo_cast` copies.
use koheron_server.Base.{
  ℕ, ◌+◌, ◌*◌, ◌/◌, ◌%◌, ◌^◌, ◌<◌, ◌≡◌, refl, Bool, true, false, Option, none, some, List, [], ◌∷◌,
  ◌++◌, arith, ◌==◌, length, ℤ, of_bits, to_bits, InRange, to_bits-lt, of_bits-to_bits, ◌>>=◌,
}
use mathlib.Core.Option

-- The types that have a `size_of`.
pub data Scalar : Type 0 where
  uint8 int8 uint16 int16 uint32 int32 uint64 int64 float double boolean : Scalar

abbrev pub Value : Scalar → Type 0
Value uint8 = ℕ
Value int8 = ℤ
Value uint16 = ℕ
Value int16 = ℤ
Value uint32 = ℕ
Value int32 = ℤ
Value uint64 = ℕ
Value int64 = ℤ
Value float = ℕ
Value double = ℕ
Value boolean = Bool

-- What a C++ value of the type can be.
abbrev pub Fits : (t : Scalar) → Value t → Type 0
Fits uint8 v = v < 2 ^ 8
Fits int8 v = InRange (2 ^ 7) v
Fits uint16 v = v < 2 ^ 16
Fits int16 v = InRange (2 ^ 15) v
Fits uint32 v = v < 2 ^ 32
Fits int32 v = InRange (2 ^ 31) v
Fits uint64 v = v < 2 ^ 64
Fits int64 v = InRange (2 ^ 63) v
Fits float v = v < 2 ^ 32
Fits double v = v < 2 ^ 64
Fits boolean v = Unit {0}

abbrev pub size_of : Scalar → ℕ
size_of uint8 = 1
size_of int8 = 1
size_of uint16 = 2
size_of int16 = 2
size_of uint32 = 4
size_of int32 = 4
size_of uint64 = 8
size_of int64 = 8
size_of float = 4
size_of double = 8
size_of boolean = 1

-- `append<uint8_t>` to `append<uint64_t>`: the bytes that are written from `buff[0]` on.
abbrev append_u8 : ℕ → List ℕ
append_u8 v = v % 256 ∷ []

abbrev append_u16 : ℕ → List ℕ
append_u16 v = v / 2 ^ 8 % 256 ∷ v % 256 ∷ []

abbrev append_u32 : ℕ → List ℕ
append_u32 v = v / 2 ^ 24 % 256 ∷ v / 2 ^ 16 % 256 ∷ v / 2 ^ 8 % 256 ∷ v % 256 ∷ []

abbrev append_u64 : ℕ → List ℕ
append_u64 v = append_u32 (v / 2 ^ 32 % 2 ^ 32) ++ append_u32 (v % 2 ^ 32)

abbrev append_bool : Bool → List ℕ
append_bool true = 1 ∷ []
append_bool false = 0 ∷ []

-- A signed value goes by its bit pattern (`reinterpret_cast`).
unfoldable pub append : (t : Scalar) → Value t → List ℕ
append uint8 v = append_u8 v
append int8 v = append_u8 (to_bits (2 ^ 7) v)
append uint16 v = append_u16 v
append int16 v = append_u16 (to_bits (2 ^ 15) v)
append uint32 v = append_u32 v
append int32 v = append_u32 (to_bits (2 ^ 31) v)
append uint64 v = append_u64 v
append int64 v = append_u64 (to_bits (2 ^ 63) v)
append float v = append_u32 v
append double v = append_u64 v
append boolean v = append_bool v

-- `extract<uint8_t>` to `extract<uint64_t>`.
abbrev pub extract_u8 : List ℕ → Option ℕ
extract_u8 (b0 ∷ _) = some b0
extract_u8 [] = none

abbrev pub extract_u16 : List ℕ → Option ℕ
extract_u16 (b0 ∷ b1 ∷ _) = some ((b1 + b0 * 2 ^ 8) % 2 ^ 16)
extract_u16 _ = none

abbrev pub extract_u32 : List ℕ → Option ℕ
extract_u32 (b0 ∷ b1 ∷ b2 ∷ b3 ∷ _) = some ((b3 + b2 * 2 ^ 8 + b1 * 2 ^ 16 + b0 * 2 ^ 24) % 2 ^ 32)
extract_u32 _ = none

abbrev pub skip4 : List ℕ → List ℕ
skip4 (_ ∷ _ ∷ _ ∷ _ ∷ rest) = rest
skip4 _ = []

abbrev pub extract_u64 : List ℕ → Option ℕ
extract_u64 buff =
    extract_u32 buff >>= λ u1. extract_u32 (skip4 buff) >>= λ u2. some ((u2 + u1 * 2 ^ 32) % 2 ^ 64)

unfoldable pub extract : (t : Scalar) → List ℕ → Option (Value t)
extract uint8 buff = extract_u8 buff
extract int8 buff = Option.map (of_bits (2 ^ 7)) (extract_u8 buff)
extract uint16 buff = extract_u16 buff
extract int16 buff = Option.map (of_bits (2 ^ 15)) (extract_u16 buff)
extract uint32 buff = extract_u32 buff
extract int32 buff = Option.map (of_bits (2 ^ 31)) (extract_u32 buff)
extract uint64 buff = extract_u64 buff
extract int64 buff = Option.map (of_bits (2 ^ 63)) (extract_u64 buff)
extract float buff = extract_u32 buff
extract double buff = extract_u64 buff
extract boolean buff = Option.map (λ b. b == 1) (extract_u8 buff)

u8_back : (v : ℕ) (rest : List ℕ) → v < 2 ^ 8 → extract_u8 (append_u8 v ++ rest) ≡ some v
u8_back v rest h = ground arith

u16_back : (v : ℕ) (rest : List ℕ) → v < 2 ^ 16 → extract_u16 (append_u16 v ++ rest) ≡ some v
u16_back v rest h = ground arith

u32_back : (v : ℕ) (rest : List ℕ) → v < 2 ^ 32 → extract_u32 (append_u32 v ++ rest) ≡ some v
u32_back v rest h = ground arith

u64_back : (v : ℕ) (rest : List ℕ) → v < 2 ^ 64 → extract_u64 (append_u64 v ++ rest) ≡ some v
u64_back v rest h = ground arith

-- The bytes that `append` writes number `size_of`.
pub length-append_scalar : (t : Scalar) (v : Value t) → length (append t v) ≡ size_of t
unfolding append
length-append_scalar uint8 v = refl
length-append_scalar int8 v = refl
length-append_scalar uint16 v = refl
length-append_scalar int16 v = refl
length-append_scalar uint32 v = refl
length-append_scalar int32 v = refl
length-append_scalar uint64 v = refl
length-append_scalar int64 v = refl
length-append_scalar float v = refl
length-append_scalar double v = refl
length-append_scalar boolean true = refl
length-append_scalar boolean false = refl

signed_back :
    (h : ℕ) (v : ℤ) {r : Option ℕ}
    → InRange h v
    → r ≡ some (to_bits h v)
    → Option.map (of_bits h) r ≡ some v
signed_back h v k e = rw e (rw (of_bits-to_bits h v k))

-- For each scalar type and each value of the type's range, `extract` reads back the value that
-- `append` wrote, whatever bytes follow.
pub extract-append :
    (t : Scalar) (v : Value t) (rest : List ℕ) → Fits t v → extract t (append t v ++ rest) ≡ some v
unfolding append extract
extract-append uint8 v rest h = u8_back v rest h
extract-append int8 v rest h = signed_back (2 ^ 7) v h (u8_back _ rest (to_bits-lt (2 ^ 7) v h))
extract-append uint16 v rest h = u16_back v rest h
extract-append int16 v rest h = signed_back (2 ^ 15) v h (u16_back _ rest (to_bits-lt (2 ^ 15) v h))
extract-append uint32 v rest h = u32_back v rest h
extract-append int32 v rest h = signed_back (2 ^ 31) v h (u32_back _ rest (to_bits-lt (2 ^ 31) v h))
extract-append uint64 v rest h = u64_back v rest h
extract-append int64 v rest h = signed_back (2 ^ 63) v h (u64_back _ rest (to_bits-lt (2 ^ 63) v h))
extract-append float v rest h = u32_back v rest h
extract-append double v rest h = u64_back v rest h
extract-append boolean true rest h = refl
extract-append boolean false rest h = refl
