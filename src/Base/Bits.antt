-- ===== src/Base/Bits.antt =====
-- `x | y` of a value shifted left by `k` bits and one that fits `k` bits is their sum.
use Prim.Native.Nat.{ℕ, zero, suc, ◌+◌, ◌*◌, ◌/◌, ◌%◌, ◌^◌, ◌≤◌, ◌<◌, max, bit_or}
use Prim.Native.Nat.{digits, bit_or-bitwise}
use mathlib.Core.Path.{◌≡◌, refl, ap}
use native.Mathlib.Omega.{arith}
use native.Mathlib.Nat.{pow-suc}

abbrev or_digits : ℕ → ℕ → ℕ → ℕ
or_digits n a b = digits (λ b. b) max n a b

-- Any fuel that covers the left operand gives the same digits.
or_digits_enough : (n m a b : ℕ) → a ≤ n → a ≤ m → or_digits n a b ≡ or_digits m a b
or_digits_enough zero zero a b p q = refl
or_digits_enough zero (suc m) zero b p q = refl
or_digits_enough zero (suc m) (suc a) b p q = absurd (omega arith)
or_digits_enough (suc n) zero zero b p q = refl
or_digits_enough (suc n) zero (suc a) b p q = absurd (omega arith)
or_digits_enough (suc n) (suc m) zero b p q = refl
or_digits_enough (suc n) (suc m) (suc a) b p q =
    omega (arith, or_digits_enough n m (suc a / 2) (b / 2) (omega arith) (omega arith))

zero-bit_or : (b : ℕ) → bit_or 0 b ≡ b
zero-bit_or b = bit_or-bitwise 0 b

-- The lowest binary digit of `a | b`, and the rest.
bit_or-halves : (a b : ℕ) → bit_or a b ≡ bit_or (a / 2) (b / 2) * 2 + max (a % 2) (b % 2)
bit_or-halves zero b = omega (arith, zero-bit_or b, zero-bit_or (b / 2))
bit_or-halves (suc a) b = omega (
  arith,
  bit_or-bitwise (suc a) b,
  bit_or-bitwise (suc a / 2) (b / 2),
  or_digits_enough a (suc a / 2) (suc a / 2) (b / 2) (omega arith) (omega arith),
)

bit_or-nothing_below : (n a : ℕ) → a ≤ n → bit_or a 0 ≡ a
bit_or-nothing_below n zero h = refl
bit_or-nothing_below zero (suc a) h = absurd (omega arith)
bit_or-nothing_below (suc n) (suc a) h =
    omega (arith, bit_or-halves (suc a) 0, bit_or-nothing_below n (suc a / 2) (omega arith))

doubled : (q k : ℕ) → q * 2 ^ suc k ≡ (q * 2 ^ k) * 2
doubled q k = omega (arith, ap (λ (t : ℕ). q * t) (pow-suc 2 k))

pub bit_or_sum : (k q r : ℕ) → r < 2 ^ k → bit_or (q * 2 ^ k) r ≡ q * 2 ^ k + r
bit_or_sum zero q r h = ground (arith, bit_or-nothing_below q q (omega arith))
bit_or_sum (suc k) q r h = ground (
  arith,
  bit_or-halves (q * 2 ^ suc k) r,
  doubled q k,
  pow-suc 2 k,
  bit_or_sum k q (r / 2) (omega (arith, pow-suc 2 k)),
)
