-- ===== src/Base/Int.antt =====
-- C++ `int` results and signed fields over the native numbers, under the library's names.
use Prim.Native.Nat.{ℕ, ◌+◌, ◌-◌, ◌<◌}
use mathlib.Core.Path.{◌≡◌}
use mathlib.Core.Bool.{Bool, true, false}
use native.Mathlib.Omega.{arith}
use koheron_server.Base.Tests.{ltb, if◌then◌else◌}

-- `negsuc n` is -(n + 1).
pub data ℤ : Type 0 where
  pos : ℕ → ℤ
  negsuc : ℕ → ℤ

abbrev pub minus_one : ℤ
minus_one = negsuc 0

-- `x < 0`
abbrev pub is_neg : ℤ → Bool
is_neg (pos n) = false
is_neg (negsuc n) = true

-- The value that the two's complement pattern `b` of half range `h` (2 ^ (w - 1)) stands for.
abbrev pub of_bits : ℕ → ℕ → ℤ
of_bits h b = if ltb b h then pos b else negsuc (h + h - b - 1)

-- The pattern of a value, read back as unsigned.
abbrev pub to_bits : ℕ → ℤ → ℕ
to_bits h (pos n) = n
to_bits h (negsuc n) = h + h - n - 1

-- The values of a signed type with half range `h`.
abbrev pub InRange : ℕ → ℤ → Type 0
InRange h (pos n) = n < h
InRange h (negsuc n) = n < h

pub to_bits-lt : (h : ℕ) (z : ℤ) → InRange h z → to_bits h z < h + h
to_bits-lt h (pos n) r = omega arith
to_bits-lt h (negsuc n) r = omega arith

pub of_bits-to_bits : (h : ℕ) (z : ℤ) → InRange h z → of_bits h (to_bits h z) ≡ z
of_bits-to_bits h (pos n) r = ground arith
of_bits-to_bits h (negsuc n) r = ground arith
