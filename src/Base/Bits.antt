-- ===== src/Base/Bits.antt =====
-- Exclusive or: undone by a second one with the same number.
use Prim.Native.Nat.{
  ℕ, zero, suc, ◌+◌, ◌*◌, ◌/◌, ◌%◌, ◌≤◌, ◌<◌, differ, digits, bit_xor, bit_xor-bitwise,
}
use mathlib.Core.Path.{◌≡◌, refl}
use native.Mathlib.Omega.{arith}

-- The digits of a and b that differ, for `fuel` digits of a.
abbrev xor_digits : ℕ → ℕ → ℕ → ℕ
xor_digits fuel a b = digits (λ b. b) differ fuel a b

differ-two : (p q : ℕ) → p < 2 → q < 2 → (differ p q < 2)
differ-two zero q h k = k
differ-two (suc zero) zero h k = h
differ-two (suc zero) (suc q) h k = omega arith
differ-two (suc (suc p)) q h k = absurd (omega arith)

differ-differ : (p q : ℕ) → p < 2 → q < 2 → differ (differ p q) q ≡ p
differ-differ zero zero h k = refl
differ-differ zero (suc zero) h k = refl
differ-differ (suc zero) zero h k = refl
differ-differ (suc zero) (suc zero) h k = refl
differ-differ p (suc (suc q)) h k = absurd (omega arith)
differ-differ (suc (suc p)) q h k = absurd (omega arith)

-- More fuel than there are digits changes nothing.
xor_digits_enough : (n m a b : ℕ) → a ≤ n → a ≤ m → xor_digits n a b ≡ xor_digits m a b
xor_digits_enough zero zero a b h k = refl
xor_digits_enough zero (suc m) zero b h k = refl
xor_digits_enough (suc n) zero zero b h k = refl
xor_digits_enough (suc n) (suc m) zero b h k = refl
xor_digits_enough zero m (suc a) b h k = absurd (omega arith)
xor_digits_enough (suc n) zero (suc a) b h k = absurd (omega arith)
xor_digits_enough (suc n) (suc m) (suc a) b h k =
    let halves = xor_digits_enough n m (suc a / 2) (b / 2) (omega arith) (omega arith) in
    omega (arith, halves)

bit_xor_halves : (a b : ℕ) → bit_xor a b ≡ bit_xor (a / 2) (b / 2) * 2 + differ (a % 2) (b % 2)
bit_xor_halves zero b = omega (arith, bit_xor-bitwise 0 b, bit_xor-bitwise 0 (b / 2))
bit_xor_halves (suc a) b =
    let half = suc a / 2 in
    omega (
      arith,
      bit_xor-bitwise (suc a) b,
      bit_xor-bitwise half (b / 2),
      xor_digits_enough a half half (b / 2) (omega arith) (omega arith),
    )

undo : (fuel a b : ℕ) → a + b ≤ fuel → bit_xor (bit_xor a b) b ≡ a
undo zero zero zero h = refl
undo zero (suc a) b h = absurd (omega arith)
undo zero zero (suc b) h = absurd (omega arith)
undo (suc fuel) a b h =
    let half : bit_xor a b / 2 ≡ bit_xor (a / 2) (b / 2) =
      omega (arith, bit_xor_halves a b, differ-two (a % 2) (b % 2) (omega arith) (omega arith)) in
    let low : bit_xor a b % 2 ≡ differ (a % 2) (b % 2) =
      omega (arith, bit_xor_halves a b, differ-two (a % 2) (b % 2) (omega arith) (omega arith)) in
    let twice = rw (half, low) at (bit_xor_halves (bit_xor a b) b) in
    omega (
      arith,
      twice,
      undo fuel (a / 2) (b / 2) (omega arith),
      differ-differ (a % 2) (b % 2) (omega arith) (omega arith),
    )

pub bit_xor-bit_xor : (a b : ℕ) → bit_xor (bit_xor a b) b ≡ a
bit_xor-bit_xor a b = undo (a + b) a b (omega arith)
