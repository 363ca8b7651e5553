-- ===== src/Queue/Contents.antt =====
-- What a queue holds: the items of its range with their indices, in their order; holes are left out.
use candystore.Base.{
  ℕ, zero, suc, ◌+◌, ◌-◌, ◌^◌, ◌<◌, ◌≤◌, ◌≡◌, refl, sym, ap, ◌∙◌, Option, none, some, List, [], ◌∷◌,
  ◌++◌, update, update_ne, inl, inr, ◌⊎◌, Option-cases, arith,
}
use candystore.Base.Bytes.{Bytes, length}
use candystore.Queue.{Queue}
use candystore.Queue.Keys.{IsWords}
use candystore.Queue.Cells.{Cells}
use mathlib.Core.List.{append_assoc, append-nil}

abbrev pub Item : Type 0
Item = ℕ × Bytes

abbrev pub one : ℕ → Option Bytes → List Item
one i none = []
one i (some v) = (i, v) ∷ []

-- the items at the indices `lo..lo + n`
unfoldable pub items_from : (ℕ → Option Bytes) → ℕ → ℕ → List Item
items_from item zero lo = []
items_from item (suc n) lo = one lo (item lo) ++ items_from item n (lo + 1)

unfoldable pub contents : Cells → List Item
contents c = elim c.desc [
  | none ↦ []
  | some d ↦ items_from c.item (d.tail_idx - d.head_idx) d.head_idx
]

-- a queue's descriptor and items agree
pub record InRange (item : ℕ → Option Bytes) (d : Queue) : Type 0 where
  pub ordered : d.head_idx ≤ d.tail_idx
  pub words : d.tail_idx < 2 ^ 64
  pub outside : (i : ℕ) → (i < d.head_idx) ⊎ (d.tail_idx ≤ i) → item i ≡ none
  pub counted : d.num_items ≡ length (items_from item (d.tail_idx - d.head_idx) d.head_idx)

abbrev pub DescInv : (ℕ → Option Bytes) → Option Queue → Type 0
DescInv item none = (i : ℕ) → item i ≡ none
DescInv item (some d) = InRange item d

abbrev pub QueueInv : Cells → Type 0
QueueInv c = DescInv c.item c.desc

pub items_from_congr :
    (a b : ℕ → Option Bytes) (n lo : ℕ)
    → ((i : ℕ) → lo ≤ i → i < lo + n → a i ≡ b i)
    → items_from a n lo ≡ items_from b n lo
unfolding items_from
items_from_congr a b zero lo same = refl
items_from_congr a b (suc n) lo same =
    rw
      (
        same lo (omega arith) (omega arith),
        items_from_congr a b n (lo + 1) (λ i l h. same i (omega arith) (omega arith)),
      )
      refl

-- the last index of a range stands at the end
pub items_from_snoc :
    (item : ℕ → Option Bytes) (n lo : ℕ)
    → items_from item (suc n) lo ≡ items_from item n lo ++ one (lo + n) (item (lo + n))
unfolding items_from
items_from_snoc item zero lo =
    let e : lo + 0 ≡ lo = omega arith in
    append-nil (one lo (item lo)) ∙ ap (λ i. one i (item i)) (sym e)
items_from_snoc item (suc n) lo =
    let e : lo + 1 + n ≡ lo + suc n = omega arith in
    ap (λ l. one lo (item lo) ++ l)
      (items_from_snoc item n (lo + 1) ∙ ap (λ i. items_from item n (lo + 1) ++ one i (item i)) e)
    ∙ sym (
        append_assoc (one lo (item lo)) (items_from item n (lo + 1))
          (one (lo + suc n) (item (lo + suc n))))

pub items_from-update :
    (item : ℕ → Option Bytes) (i : ℕ) (o : Option Bytes) (n lo : ℕ)
    → (i < lo) ⊎ (lo + n ≤ i)
    → items_from (update item i o) n lo ≡ items_from item n lo
items_from-update item i o n lo out =
    items_from_congr (update item i o) item n lo
      (λ j l h. update_ne item i j o (λ e. apart e l h out))
  where
    apart : {j : ℕ} → i ≡ j → lo ≤ j → j < lo + n → (i < lo) ⊎ (lo + n ≤ i) → ⊥
    apart e l h (inl x) = omega arith
    apart e l h (inr x) = omega arith

pub length-items_from : (item : ℕ → Option Bytes) (n lo : ℕ) → length (items_from item n lo) ≤ n
unfolding items_from
length-items_from item zero lo = omega arith
length-items_from item (suc n) lo = elim (Option-cases (item lo)) [
  | inl e ↦ rw e (omega (arith, length-items_from item n (lo + 1)))
  | inr (x, e) ↦ rw e (omega (arith, length-items_from item n (lo + 1)))
]

pub InRange-IsWords : {item : ℕ → Option Bytes} {d : Queue} → InRange item d → IsWords d
InRange-IsWords {item} {d} v = record {
  head_word = omega (arith, v.ordered, v.words);
  tail_word = v.words;
  num_word =
      omega
        (arith, v.counted, v.words, length-items_from item (d.tail_idx - d.head_idx) d.head_idx);
}
