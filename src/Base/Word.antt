-- ===== src/Base/Word.antt =====
-- Machine words as bytes, the least significant byte first (`bytes_of`, `from_bytes` of bytemuck on
-- a `u64`, on a little-endian machine), and their wrapping arithmetic.
use Prim.Native.Nat.{ℕ, zero, suc, ◌+◌, ◌-◌, ◌*◌, ◌/◌, ◌%◌, ◌^◌, ◌<◌}
use mathlib.Core.Path.{◌≡◌, refl, ap}
use mathlib.Core.List.{[], ◌∷◌}
use native.Mathlib.Omega.{arith}
use candystore.Base.Bytes.{Bytes, length}

unfoldable pub le_bytes : ℕ → ℕ → Bytes
le_bytes zero x = []
le_bytes (suc n) x = x % 256 ∷ le_bytes n (x / 256)

unfoldable pub of_le_bytes : Bytes → ℕ
of_le_bytes [] = 0
of_le_bytes (b ∷ bs) = b + 256 * of_le_bytes bs

unfoldable pub pow256 : ℕ → ℕ
pow256 zero = 1
pow256 (suc n) = 256 * pow256 n

pub length-le_bytes : (n x : ℕ) → length (le_bytes n x) ≡ n
unfolding le_bytes
length-le_bytes zero x = refl
length-le_bytes (suc n) x = ap suc (length-le_bytes n (x / 256))

of_le_bytes_pow : (n x : ℕ) → x < pow256 n → of_le_bytes (le_bytes n x) ≡ x
unfolding le_bytes of_le_bytes pow256
of_le_bytes_pow zero x lt = omega arith
of_le_bytes_pow (suc n) x lt = omega (arith, of_le_bytes_pow n (x / 256) (omega arith))

-- A word reads back from its eight bytes.
pub of_le_bytes-le_bytes : (x : ℕ) → x < 2 ^ 64 → of_le_bytes (le_bytes 8 x) ≡ x
unfolding pow256
of_le_bytes-le_bytes x lt = of_le_bytes_pow 8 x lt

-- `x + y` and `x - y` on `u64`, in a build without overflow checks
abbrev pub wrapping_add : ℕ → ℕ → ℕ
wrapping_add x y = (x + y) % 2 ^ 64

abbrev pub wrapping_sub : ℕ → ℕ → ℕ
wrapping_sub x y = (x + 2 ^ 64 - y) % 2 ^ 64
