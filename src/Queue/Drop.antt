-- ===== src/Queue/Drop.antt =====
-- The items and the range of a queue once the item at an index was taken out.
use candystore.Base.{
  if◌then◌else◌, ℕ, zero, suc, ◌+◌, ◌-◌, ◌<◌, ◌≤◌, ◌≡◌, ◌≢◌, refl, sym, ap, ◌∙◌, Option, none, some,
  List, [], ◌∷◌, ◌++◌, update, update_self, update_ne, inl, inr, ◌⊎◌, ==_iff, ==_self, ==_of_ne,
  ◌==◌, arith,
}
use candystore.Base.Bytes.{Bytes, length, length-append}
use candystore.Base.Word.{wrapping_add, wrapping_sub}
use candystore.Queue.{Queue}
use candystore.Queue.Contents.{
  Item, one, items_from, items_from_snoc, items_from-update, length-items_from, InRange,
}
use mathlib.Core.List.{append-nil}
use native.Mathlib.Decide.{ℕ_discrete, dec_lt}
use candystore.Queue.{drop_at}
use candystore.Queue.Ends.{listing}

-- the items but for those at an index
unfoldable pub dropped : ℕ → List Item → List Item
dropped idx [] = []
dropped idx ((i, x) ∷ xs) = let rest = dropped idx xs in if idx == i then rest else (i, x) ∷ rest

pub clash : {o : Option Bytes} {x : Bytes} → o ≡ none → o ≡ some x → ⊥
clash e f = grind (arith, e, f)

-- the index is not the only one of the range
abbrev pub NotOnly : ℕ → Option Queue → Type 0
NotOnly idx none = Unit
NotOnly idx (some d) = (d.head_idx ≢ idx) ⊎ (d.tail_idx ≢ idx + 1)

module _ (item : ℕ → Option Bytes) (idx : ℕ) where
  abbrev pub cleared : ℕ → Option Bytes
  cleared = update item idx none

  dropped-one :
      (i : ℕ) (o : Option Bytes) (xs : List Item)
      → idx ≢ i
      → dropped idx (one i o ++ xs) ≡ one i o ++ dropped idx xs
  unfolding dropped
  dropped-one i none xs ne = refl
  dropped-one i (some x) xs ne = rw (==_of_ne idx i ne) refl

  dropped_self :
      (o : Option Bytes) (xs : List Item) → dropped idx (one idx o ++ xs) ≡ dropped idx xs
  unfolding dropped
  dropped_self none xs = refl
  dropped_self (some x) xs = rw (==_self idx) refl

  pub items_from-cleared : (n lo : ℕ) → items_from cleared n lo ≡ dropped idx (items_from item n lo)
  unfolding items_from dropped
  items_from-cleared zero lo = refl
  items_from-cleared (suc n) lo = elim (ℕ_discrete idx lo) [
    | yes e ↦
        rw
          (
            sym e,
            update_self item idx none,
            items_from-cleared n (idx + 1),
            dropped_self (item idx) (items_from item n (idx + 1)),
          )
          refl
    | no ne ↦
        rw
          (
            update_ne item idx lo none ne,
            items_from-cleared n (lo + 1),
            dropped-one lo (item lo) (items_from item n (lo + 1)) ne,
          )
          refl
  ]

  length-cleared :
      (x : Bytes) (n lo : ℕ)
      → item idx ≡ some x
      → lo ≤ idx
      → idx < lo + n
      → suc (length (items_from cleared n lo)) ≡ length (items_from item n lo)
  unfolding items_from
  length-cleared x zero lo e l h = absurd (omega arith)
  length-cleared x (suc n) lo e l h = elim (ℕ_discrete idx lo) [
    | yes same ↦
        rw
          (
            sym same,
            update_self item idx none,
            e,
            items_from-update item idx none n (idx + 1) (inl (omega arith)),
          )
          refl
    | no ne ↦
        let rest = length-cleared x n (lo + 1) e (omega (arith, ne)) (omega arith) in
        rw (update_ne item idx lo none ne) (
          omega (
            arith,
            rest,
            length-append (one lo (item lo)) (items_from cleared n (lo + 1)),
            length-append (one lo (item lo)) (items_from item n (lo + 1)),
          ))
  ]

  skip_first :
      (n lo : ℕ) → cleared lo ≡ none → items_from cleared (suc n) lo ≡ items_from cleared n (lo + 1)
  unfolding items_from
  skip_first n lo e = ap (λ o. one lo o ++ items_from cleared n (lo + 1)) e

  skip_last :
      (n lo : ℕ) → cleared (lo + n) ≡ none → items_from cleared (suc n) lo ≡ items_from cleared n lo
  skip_last n lo e =
      items_from_snoc cleared n lo
      ∙ ap (λ o. items_from cleared n lo ++ one (lo + n) o) e
      ∙ append-nil (items_from cleared n lo)

  pub cleared-none : {i : ℕ} → (i ≡ idx) ⊎ (item i ≡ none) → cleared i ≡ none
  cleared-none {i} h = elim (ℕ_discrete idx i) [
    | yes e ↦ ap cleared (sym e) ∙ update_self item idx none
    | no ne ↦ update_ne item idx i none ne ∙ elim h [ inl e ↦ absurd (ne (sym e)) | inr e ↦ e ]
  ]

  -- the range and the items once an item was taken out
  pub record Dropped (d d' : Queue) : Type 0 where
    pub inv : InRange cleared d'
    pub listed : listing cleared d' ≡ dropped idx (listing item d)

  pub inside :
      (d : Queue) (x : Bytes)
      → InRange item d
      → item idx ≡ some x
      → (d.head_idx ≤ idx) × (idx < d.tail_idx)
  inside d x v e = elim (dec_lt idx d.head_idx) [
    | yes lt ↦ absurd (clash (v.outside idx (inl lt)) e)
    | no ge ↦ elim (dec_lt idx d.tail_idx) [
      | yes lt ↦ (omega arith, lt)
      | no ge' ↦ absurd (clash (v.outside idx (inr (omega arith))) e)
    ]
  ]

  counts :
      (d : Queue) (x : Bytes)
      → InRange item d
      → item idx ≡ some x
      → suc (length (items_from cleared (d.tail_idx - d.head_idx) d.head_idx))
        ≡ length (listing item d)
  counts d x v e =
      let l = inside d x v e in
      length-cleared x (d.tail_idx - d.head_idx) d.head_idx e l.0 (omega (arith, l.1, v.ordered))

  -- the index at the head, at the tail, or between them
  pub at_head :
      (d : Queue) (x : Bytes)
      → InRange item d
      → item idx ≡ some x
      → d.head_idx ≡ idx
      → Dropped d (record {
        head_idx = wrapping_add d.head_idx 1;
        tail_idx = d.tail_idx;
        num_items = wrapping_sub d.num_items 1;
      })
  at_head d x v e h =
      let lt = (inside d x v e).1 in
      let next : wrapping_add d.head_idx 1 ≡ d.head_idx + 1 = omega (arith, v.words, lt, h) in
      let more : d.tail_idx - d.head_idx ≡ suc (d.tail_idx - wrapping_add d.head_idx 1) =
        omega (arith, next, lt, h) in
      let listed : listing cleared (record {
        head_idx = wrapping_add d.head_idx 1;
        tail_idx = d.tail_idx;
        num_items = wrapping_sub d.num_items 1;
      })
          ≡ items_from cleared (d.tail_idx - d.head_idx) d.head_idx =
        ap (items_from cleared (d.tail_idx - wrapping_add d.head_idx 1)) next
        ∙ sym
            (skip_first (d.tail_idx - wrapping_add d.head_idx 1) d.head_idx (cleared-none (inl h)))
        ∙ ap (λ n. items_from cleared n d.head_idx) (sym more) in
      record {
        inv = record {
          ordered = omega (arith, next, lt, h);
          words = v.words;
          outside = λ i out. cleared-none (before i out);
          counted = omega (
            arith,
            v.counted,
            ap length listed,
            counts d x v e,
            v.words,
            length-items_from item (d.tail_idx - d.head_idx) d.head_idx,
          );
        };
        listed = listed ∙ items_from-cleared (d.tail_idx - d.head_idx) d.head_idx;
      }
    where
      before :
          (i : ℕ) → (i < wrapping_add d.head_idx 1) ⊎ (d.tail_idx ≤ i) → (i ≡ idx) ⊎ (item i ≡ none)
      before i out = elim (ℕ_discrete i idx) [
        | yes same ↦ inl same
        | no other ↦ inr (v.outside i (omega (arith, out, other, h, v.words, (inside d x v e).1)))
      ]

  pub at_tail :
      (d : Queue) (x : Bytes)
      → InRange item d
      → item idx ≡ some x
      → d.head_idx ≢ idx
      → d.tail_idx ≡ idx + 1
      → Dropped d (record {
        head_idx = d.head_idx;
        tail_idx = wrapping_sub d.tail_idx 1;
        num_items = wrapping_sub d.num_items 1;
      })
  at_tail d x v e ne h =
      let le = (inside d x v e).0 in
      let prev : wrapping_sub d.tail_idx 1 ≡ idx = omega (arith, v.words, h) in
      let more : d.tail_idx - d.head_idx ≡ suc (wrapping_sub d.tail_idx 1 - d.head_idx) =
        omega (arith, prev, le, h) in
      let last : d.head_idx + (wrapping_sub d.tail_idx 1 - d.head_idx) ≡ idx =
        omega (arith, prev, le) in
      let listed : listing cleared (record {
        head_idx = d.head_idx;
        tail_idx = wrapping_sub d.tail_idx 1;
        num_items = wrapping_sub d.num_items 1;
      })
          ≡ items_from cleared (d.tail_idx - d.head_idx) d.head_idx =
        sym
          (skip_last (wrapping_sub d.tail_idx 1 - d.head_idx) d.head_idx (cleared-none (inl last)))
        ∙ ap (λ n. items_from cleared n d.head_idx) (sym more) in
      record {
        inv = record {
          ordered = omega (arith, prev, le);
          words = omega (arith, prev, v.words, h);
          outside = λ i out. cleared-none (behind i out);
          counted = omega (
            arith,
            v.counted,
            ap length listed,
            counts d x v e,
            v.words,
            length-items_from item (d.tail_idx - d.head_idx) d.head_idx,
          );
        };
        listed = listed ∙ items_from-cleared (d.tail_idx - d.head_idx) d.head_idx;
      }
    where
      behind :
          (i : ℕ) → (i < d.head_idx) ⊎ (wrapping_sub d.tail_idx 1 ≤ i) → (i ≡ idx) ⊎ (item i ≡ none)
      behind i out = elim (ℕ_discrete i idx) [
        | yes same ↦ inl same
        | no other ↦ inr (v.outside i (omega (arith, out, other, h, v.words)))
      ]

  pub between :
      (d : Queue) (x : Bytes)
      → InRange item d
      → item idx ≡ some x
      → Dropped d (record d { num_items = wrapping_sub d.num_items 1 })
  between d x v e = record {
    inv = record {
      ordered = v.ordered;
      words = v.words;
      outside = λ i out. cleared-none (inr (v.outside i out));
      counted = omega (
        arith,
        v.counted,
        counts d x v e,
        v.words,
        length-items_from item (d.tail_idx - d.head_idx) d.head_idx,
      );
    };
    listed = items_from-cleared (d.tail_idx - d.head_idx) d.head_idx;
  }

  pub drops :
      (d : Queue) (x : Bytes)
      → InRange item d
      → item idx ≡ some x
      → NotOnly idx (some d)
      → Dropped d (drop_at idx d)
  unfolding drop_at
  drops d x v e other = elim (ℕ_discrete d.head_idx idx) [
    | yes h ↦
        let word : wrapping_add idx 1 ≡ idx + 1 = omega (arith, v.words, (inside d x v e).1) in
        let ne : d.tail_idx ≢ idx + 1 = elim other [
          | inl no_head ↦ absurd (no_head h)
          | inr no_tail ↦ no_tail
        ] in
        rw ((==_iff d.head_idx idx).1 h, word, ==_of_ne d.tail_idx (idx + 1) ne) (at_head d x v e h)
    | no h ↦
        let word : wrapping_add idx 1 ≡ idx + 1 = omega (arith, v.words, (inside d x v e).1) in
        elim (ℕ_discrete d.tail_idx (idx + 1)) [
          | yes t ↦
              rw (==_of_ne d.head_idx idx h, word, (==_iff d.tail_idx (idx + 1)).1 t)
                (at_tail d x v e h t)
          | no t ↦
              rw (==_of_ne d.head_idx idx h, word, ==_of_ne d.tail_idx (idx + 1) t)
                (between d x v e)
        ]
  ]
