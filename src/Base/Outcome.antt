-- ===== src/Base/Outcome.antt =====
-- Fallible calls. `Result` is `anyhow::Result` with the errors that the store itself raises and the
-- end of file that a read meets; `Exec S` threads a state that an error leaves as far as it got.
use Prim.Native.Nat.{ℕ}
use mathlib.Core.Bool.{Bool}
use candystore.Base.Logic.{if◌then◌else◌}

-- `CandyError` of src/lib.rs, the error of `read_exact_at`, and a loop whose fuel ran out.
pub data Error : Type 0 where
  key_too_long : ℕ → Error
  value_too_long : ℕ → Error
  entry_cannot_fit_in_shard : ℕ → ℕ → Error
  unexpected_eof : Error
  panicked : Error
  out_of_fuel : Error

pub data Result {ℓ} (A : Type ℓ) : Type ℓ where
  ok : A → Result A
  err : Error → Result A

abbrev pub Exec {ℓ} : Type ℓ → Type ℓ → Type ℓ
Exec S A = S → Result A × S

module _ {ℓ} {S A : Type ℓ} where
  abbrev pub pure : A → Exec S A
  pure a s = (ok a, s)

  abbrev pub fail : Error → Exec S A
  fail e s = (err e, s)

  abbrev pub gets : (S → A) → Exec S A
  gets f s = (ok (f s), s)

module _ {S : Type 0} where
  abbrev pub modify : (S → S) → Exec S (Unit {0})
  modify f s = (ok tt, f s)

  -- `assert!`: a panic if the test fails
  abbrev pub guard : Bool → Exec S (Unit {0})
  guard b s = if b then (ok tt, s) else (err panicked, s)

module _ {ℓ} {S A B : Type ℓ} where
  abbrev pub continue : Result A → (A → Exec S B) → Exec S B
  continue (ok a) f s = f a s
  continue (err e) f s = (err e, s)

  infixl 10 ◌>>=◌ ◌>>◌
  unfoldable pub ◌>>=◌ : Exec S A → (A → Exec S B) → Exec S B
  ◌>>=◌ m f s = continue (m s).0 f (m s).1

  abbrev pub ◌>>◌ : Exec S A → Exec S B → Exec S B
  m >> n = m >>= λ _. n
