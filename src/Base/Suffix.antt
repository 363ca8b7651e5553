-- ===== src/Base/Suffix.antt =====
-- `ends_with` on byte strings.
use Prim.Native.Nat.{ℕ, zero, suc, ◌-◌}
use mathlib.Core.Path.{◌≡◌, refl, ap, sym, ◌∙◌}
use mathlib.Core.Bool.{Bool, true, false, ◌&&◌}
use mathlib.Core.List.{[], ◌∷◌, ◌++◌}
use native.Mathlib.Omega.{arith}
use candystore.Base.Logic.{leb, leb_of_le}
use candystore.Base.Bytes.{
  Bytes, length, length-append, take, drop, drop-append, bytes_eq, bytes_eq_self, bytes_eq_sound,
}

abbrev pub ends_with : Bytes → Bytes → Bool
ends_with k suffix =
    leb (length suffix) (length k) && bytes_eq (drop (length k - length suffix) k) suffix

pub take-drop : (n : ℕ) (xs : Bytes) → take n xs ++ drop n xs ≡ xs
take-drop zero xs = refl
take-drop (suc n) [] = refl
take-drop (suc n) (x ∷ xs) = ap (λ t. x ∷ t) (take-drop n xs)

pub ends_with-append : (xs s : Bytes) → ends_with (xs ++ s) s ≡ true
ends_with-append xs s =
    let len = length-append xs s in
    rw
      (
        leb_of_le (length s) (length (xs ++ s)) (omega (arith, len)),
        drop-append (length (xs ++ s) - length s) xs s (omega (arith, len)),
        bytes_eq_self s,
      )
      refl

both : (a b : Bool) → a && b ≡ true → b ≡ true
both true b e = e
both false true e = refl
both false false e = e

-- What ends with a suffix is something followed by it.
pub ends_with-split :
    (xs s : Bytes) → ends_with xs s ≡ true → xs ≡ take (length xs - length s) xs ++ s
ends_with-split xs s e =
    sym (take-drop (length xs - length s) xs)
    ∙ ap (λ t. take (length xs - length s) xs ++ t)
        (bytes_eq_sound (drop (length xs - length s) xs) s
          (both (leb (length s) (length xs)) (bytes_eq (drop (length xs - length s) xs) s) e))
