-- ===== src/Lists/Pop/Heads.antt =====
-- The first item of a list, with the holes before it, and the list behind it.
use candystore.Base.{
  ℕ, zero, suc, ◌+◌, ◌-◌, ◌<◌, ◌≤◌, ◌≡◌, refl, sym, ap, ◌∙◌, true, Option, none, some, [], ◌∷◌,
  update_self, update_ne, inl, inr, arith,
}
use candystore.Base.Bytes.{Bytes, length}
use candystore.Base.Word.{wrapping_add}
use candystore.Queue.Contents.{items_from, items_from-update, length-items_from, InRange}
use candystore.Queue.Ends.{listing, without}
use candystore.Lists.{ListDesc}
use candystore.Lists.Walk.{popped_list}
use native.Mathlib.Decide.{dec_lt, ℕ_discrete}

-- the list behind an item at its head, of which there was nothing before the item
pub record Headed (chain : ℕ → Option Bytes) (d : ListDesc) (idx : ℕ) (k : Bytes) : Type 0 where
  pub inv : InRange (without chain idx) (popped_list true idx d)
  pub listed : listing chain d ≡ (idx, k) ∷ listing (without chain idx) (popped_list true idx d)

pub none_before :
    (chain : ℕ → Option Bytes) (n lo : ℕ)
    → ((i : ℕ) → i < lo + n → chain i ≡ none)
    → items_from chain n lo ≡ []
unfolding items_from
none_before chain zero lo free = refl
none_before chain (suc n) lo free =
    rw (free lo (omega arith), none_before chain n (lo + 1) (λ i lt. free i (omega arith))) refl

skips :
    (chain : ℕ → Option Bytes) (lo n m : ℕ)
    → ((i : ℕ) → i < lo + n → chain i ≡ none)
    → items_from chain (n + m) lo ≡ items_from chain m (lo + n)
unfolding items_from
skips chain lo zero m free =
    let e : lo + 0 ≡ lo = omega arith in let z : 0 + m ≡ m = omega arith in rw (e, z) refl
skips chain lo (suc n) m free =
    let e : lo + suc n ≡ lo + 1 + n = omega arith in
    let z : suc n + m ≡ suc (n + m) = omega arith in
    rw (e, z, free lo (omega arith)) (skips chain (lo + 1) n m (λ i lt. free i (omega arith)))

pub heads :
    (chain : ℕ → Option Bytes) (d : ListDesc) (idx : ℕ) (k : Bytes)
    → InRange chain d
    → d.head_idx ≤ idx
    → idx < d.tail_idx
    → ((i : ℕ) → i < idx → chain i ≡ none)
    → chain idx ≡ some k
    → Headed chain d idx k
unfolding popped_list items_from
heads chain d idx k v ge lt free e =
    let next : wrapping_add idx 1 ≡ idx + 1 = omega (arith, v.words) in
    let span : d.tail_idx - d.head_idx ≡ idx - d.head_idx + suc (d.tail_idx - (idx + 1)) =
      omega arith in
    let at : d.head_idx + (idx - d.head_idx) ≡ idx = omega arith in
    let listed : listing chain d
        ≡ (idx, k)
          ∷ items_from (without chain idx) (d.tail_idx - wrapping_add idx 1) (wrapping_add idx 1) =
      ap (λ n. items_from chain n d.head_idx) span
      ∙ skips chain d.head_idx (idx - d.head_idx) (suc (d.tail_idx - (idx + 1)))
          (λ i l. free i (omega (arith, at)))
      ∙ rw
          (
            at,
            e,
            next,
            items_from-update chain idx none (d.tail_idx - (idx + 1)) (idx + 1) (inl (omega arith)),
          )
          refl in
    record {
      inv = record {
        ordered = omega (arith, next);
        words = v.words;
        outside = λ i out. elim (ℕ_discrete idx i) [
          | yes same ↦ ap (without chain idx) (sym same) ∙ update_self chain idx none
          | no ne ↦ update_ne chain idx i none ne ∙ elim (dec_lt i idx) [
            | yes before ↦ free i before
            | no ge' ↦ v.outside i (inr (omega (arith, out, next)))
          ]
        ];
        counted = omega (
          arith,
          v.counted,
          ap length listed,
          v.words,
          length-items_from (without chain idx) (d.tail_idx - wrapping_add idx 1)
              (wrapping_add idx 1),
        );
      };
      listed = listed;
    }
