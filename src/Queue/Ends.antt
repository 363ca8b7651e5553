-- ===== src/Queue/Ends.antt =====
-- An index at an end of a queue: what is left when it was popped.
use candystore.Base.{
  ℕ, suc, ◌+◌, ◌-◌, ◌^◌, ◌<◌, ◌≤◌, ◌≡◌, ◌≢◌, refl, sym, ap, ◌∙◌, Option, none, some, List, [], ◌∷◌,
  ◌++◌, update, update_self, update_ne, inl, inr, ◌⊎◌, arith,
}
use candystore.Base.Bytes.{Bytes, length, length-append}
use candystore.Base.Word.{wrapping_add, wrapping_sub}
use candystore.Queue.{Queue, QueuePos, head, tail, pop_at}
use candystore.Queue.Contents.{
  Item, one, items_from, items_from_snoc, items_from-update, length-items_from, InRange,
}
use candystore.Queue.Push.{placed}
use mathlib.Core.List.{append-nil}
use native.Mathlib.Decide.{ℕ_discrete}

abbrev pub listing : (ℕ → Option Bytes) → Queue → List Item
listing item d = items_from item (d.tail_idx - d.head_idx) d.head_idx

-- what was taken from the end of a list
abbrev pub Took : QueuePos → List Item → Option Item → List Item → Type 0
Took pos xs none ys = (xs ≡ []) × (ys ≡ [])
Took pos xs (some x) ys = xs ≡ placed pos x ys

abbrev pub joined : QueuePos → ℕ → Option Bytes → List Item → List Item
joined head i o xs = one i o ++ xs
joined tail i o xs = xs ++ one i o

pub joined-none : (pos : QueuePos) (i : ℕ) (xs : List Item) → joined pos i none xs ≡ xs
joined-none head i xs = refl
joined-none tail i xs = append-nil xs

pub joined-some :
    (pos : QueuePos) (i : ℕ) (v : Bytes) (xs : List Item)
    → joined pos i (some v) xs ≡ placed pos (i, v) xs
joined-some head i v xs = refl
joined-some tail i v xs = refl

length-placed :
    (pos : QueuePos) (x : Item) (xs : List Item) → length (placed pos x xs) ≡ suc (length xs)
length-placed head x xs = refl
length-placed tail x xs = omega (arith, length-append xs (x ∷ []))

module _ (item : ℕ → Option Bytes) where
  abbrev pub without : ℕ → ℕ → Option Bytes
  without i = update item i none

  -- the index at an end of a range, and the range without it
  pub record Split (pos : QueuePos) (d : Queue) (idx : ℕ) (d' : Queue) : Type 0 where
    pub small : idx < 2 ^ 64
    pub shorter : suc (d'.tail_idx - d'.head_idx) ≡ d.tail_idx - d.head_idx
    pub ordered : d'.head_idx ≤ d'.tail_idx
    pub words : d'.tail_idx < 2 ^ 64
    pub inside :
        (i : ℕ)
        → (i < d'.head_idx) ⊎ (d'.tail_idx ≤ i)
        → i ≢ idx
        → (i < d.head_idx) ⊎ (d.tail_idx ≤ i)
    pub listed : listing item d ≡ joined pos idx (item idx) (listing (without idx) d')
    pub num : d'.num_items ≡ d.num_items

  pub splits :
      (pos : QueuePos) (d : Queue)
      → InRange item d
      → d.head_idx < d.tail_idx
      → Split pos d (pop_at pos d).0 (pop_at pos d).1
  unfolding pop_at items_from
  splits head d v lt =
      let next : wrapping_add d.head_idx 1 ≡ d.head_idx + 1 = omega (arith, v.words) in
      let more : d.tail_idx - d.head_idx ≡ suc (d.tail_idx - wrapping_add d.head_idx 1) =
        omega (arith, next) in
      record {
        small = omega (arith, v.words);
        shorter = sym more;
        ordered = omega (arith, next);
        words = v.words;
        inside = λ i out ne. omega (arith, out, ne, next);
        listed =
            ap (λ n. items_from item n d.head_idx) more
            ∙ ap (λ l. one d.head_idx (item d.head_idx) ++ l)
                (ap (items_from item (d.tail_idx - wrapping_add d.head_idx 1)) (sym next)
                  ∙ sym (
                      items_from-update item d.head_idx none
                        (d.tail_idx - wrapping_add d.head_idx 1) (wrapping_add d.head_idx 1)
                        (inl (omega (arith, next)))));
        num = refl;
      }
  splits tail d v lt =
      let prev : wrapping_sub d.tail_idx 1 + 1 ≡ d.tail_idx = omega (arith, v.words) in
      let more : d.tail_idx - d.head_idx ≡ suc (wrapping_sub d.tail_idx 1 - d.head_idx) =
        omega (arith, prev) in
      let last : d.head_idx + (wrapping_sub d.tail_idx 1 - d.head_idx) ≡ wrapping_sub d.tail_idx 1 =
        omega (arith, prev) in
      record {
        small = omega (arith, v.words);
        shorter = sym more;
        ordered = omega (arith, prev);
        words = omega (arith, prev, v.words);
        inside = λ i out ne. omega (arith, out, ne, prev);
        listed =
            ap (λ n. items_from item n d.head_idx) more
            ∙ items_from_snoc item (wrapping_sub d.tail_idx 1 - d.head_idx) d.head_idx
            ∙ ap
                (λ i.
                  items_from item (wrapping_sub d.tail_idx 1 - d.head_idx) d.head_idx
                  ++ one i (item i))
                last
            ∙ ap (λ l. l ++ one (wrapping_sub d.tail_idx 1) (item (wrapping_sub d.tail_idx 1)))
                (sym (
                  items_from-update item (wrapping_sub d.tail_idx 1) none
                    (wrapping_sub d.tail_idx 1 - d.head_idx) d.head_idx
                    (inr (omega (arith, last)))));
        num = refl;
      }

  module _ {pos : QueuePos} {d : Queue} {idx : ℕ} {d' : Queue} (v : InRange item d)
      (p : Split pos d idx d') where
    outside_split : (i : ℕ) → (i < d'.head_idx) ⊎ (d'.tail_idx ≤ i) → without idx i ≡ none
    outside_split i out = elim (ℕ_discrete idx i) [
      | yes e ↦ ap (without idx) (sym e) ∙ update_self item idx none
      | no ne ↦ update_ne item idx i none ne ∙ v.outside i (p.inside i out (λ e. ne (sym e)))
    ]

    pub hole-listing : item idx ≡ none → listing (without idx) d' ≡ listing item d
    hole-listing e = sym (
        p.listed
        ∙ ap (λ o. joined pos idx o (listing (without idx) d')) e
        ∙ joined-none pos idx (listing (without idx) d'))

    pub hole-InRange : item idx ≡ none → InRange (without idx) d'
    hole-InRange e = record {
      ordered = p.ordered;
      words = p.words;
      outside = outside_split;
      counted = p.num ∙ v.counted ∙ ap length (sym (hole-listing e));
    }

    pub found-listing :
        (x : Bytes)
        → item idx ≡ some x
        → listing item d ≡ placed pos (idx, x) (listing (without idx) d')
    found-listing x e =
        p.listed
        ∙ ap (λ o. joined pos idx o (listing (without idx) d')) e
        ∙ joined-some pos idx x (listing (without idx) d')

    pub found-InRange :
        (x : Bytes)
        → item idx ≡ some x
        → InRange (without idx) (record d' { num_items = wrapping_sub d.num_items 1 })
    found-InRange x e = record {
      ordered = p.ordered;
      words = p.words;
      outside = outside_split;
      counted = omega (
        arith,
        v.counted,
        ap length (found-listing x e),
        length-placed pos (idx, x) (listing (without idx) d'),
        length-items_from (without idx) (d'.tail_idx - d'.head_idx) d'.head_idx,
        p.words,
      );
    }
