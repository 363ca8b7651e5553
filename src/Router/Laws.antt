-- ===== src/Router/Laws.antt =====
-- What `consolidate_ranges` keeps and removes.
use candystore.Base.{
  ℕ, ◌+◌, ◌≤◌, ◌<◌, ◌≡◌, refl, sym, ap, subst, ◌∙◌, Bool, true, false, ◌&&◌, List, [], ◌∷◌, ◌==◌,
  if◌then◌else◌, inl, inr, Bool-cases, arith, ◌⊎◌,
}
use candystore.Router.{
  Range, comes_first, insert_sorted, sort_ranges, lies_in, sweep, swept, consolidate_ranges,
}

abbrev same_range : Range → Range → Bool
same_range a b = a.start == b.start && a.end == b.end

-- how often a range stands in a list
unfoldable pub count : Range → List Range → ℕ
count q [] = 0
count q (r ∷ rs) = (if same_range q r then 1 else 0) + count q rs

-- a range lies in one of a list
unfoldable pub Covered : Range → List Range → Type 0
Covered q [] = ⊥
Covered q (r ∷ rs) = ((r.start ≤ q.start) × (q.end ≤ r.end)) ⊎ Covered q rs

unfoldable pub AllCovered : List Range → List Range → Type 0
AllCovered [] rs = Unit
AllCovered (q ∷ qs) rs = Covered q rs × AllCovered qs rs

-- starts and ends rise along the list, so that no range of it lies in another
unfoldable pub RisesFrom : Range → List Range → Type 0
RisesFrom a [] = Unit
RisesFrom a (b ∷ bs) = (a.start < b.start) × (a.end < b.end) × RisesFrom b bs

unfoldable pub Rises : List Range → Type 0
Rises [] = Unit
Rises (a ∷ rest) = RisesFrom a rest

-- sorted by start, and by falling end
unfoldable SortedFrom : Range → List Range → Type 0
SortedFrom a [] = Unit
SortedFrom a (b ∷ bs) = (comes_first a b ≡ true) × SortedFrom b bs

unfoldable Sorted : List Range → Type 0
unfolding SortedFrom
Sorted [] = Unit
Sorted (a ∷ rest) = SortedFrom a rest

module _ (a b : Range) (bs : List Range) where
  insert_before : comes_first a b ≡ true → insert_sorted a (b ∷ bs) ≡ a ∷ b ∷ bs
  unfolding insert_sorted
  insert_before e = rw (e, insert_sorted) refl

  insert_after : comes_first a b ≡ false → insert_sorted a (b ∷ bs) ≡ b ∷ insert_sorted a bs
  unfolding insert_sorted
  insert_after e = rw (e, insert_sorted) refl

  sweep_in : lies_in b a ≡ true → sweep a (b ∷ bs) ≡ ((sweep a bs).0, b ∷ (sweep a bs).1)
  unfolding sweep
  sweep_in e = rw (e, sweep) refl

  sweep_out : lies_in b a ≡ false → sweep a (b ∷ bs) ≡ (b ∷ (sweep b bs).0, (sweep b bs).1)
  unfolding sweep
  sweep_out e = rw (e, sweep) refl

count-insert_sorted :
    (q a : Range) (rs : List Range) → count q (insert_sorted a rs) ≡ count q (a ∷ rs)
unfolding count insert_sorted
count-insert_sorted q a [] = refl
count-insert_sorted q a (b ∷ bs) = elim (Bool-cases (comes_first a b)) [
  | inl e ↦ rw (insert_before a b bs e) refl
  | inr e ↦ rw (insert_after a b bs e) (omega (arith, count-insert_sorted q a bs))
]

count-sort_ranges : (q : Range) (rs : List Range) → count q (sort_ranges rs) ≡ count q rs
unfolding count sort_ranges
count-sort_ranges q [] = refl
count-sort_ranges q (a ∷ rest) =
    count-insert_sorted q a (sort_ranges rest)
    ∙ ap (λ n. (if same_range q a then 1 else 0) + n) (count-sort_ranges q rest)

turned : (a b : Range) → comes_first a b ≡ false → comes_first b a ≡ true
unfolding comes_first
turned a b h = ground arith

insert_sorted-SortedFrom :
    (a b : Range) (rs : List Range)
    → comes_first b a ≡ true
    → SortedFrom b rs
    → SortedFrom b (insert_sorted a rs)
unfolding SortedFrom insert_sorted
insert_sorted-SortedFrom a b [] h s = (h, tt)
insert_sorted-SortedFrom a b (c ∷ cs) h s = elim (Bool-cases (comes_first a c)) [
  | inl e ↦ rw (insert_before a c cs e) (h, (e, s.1))
  | inr e ↦ rw (insert_after a c cs e) (s.0, insert_sorted-SortedFrom a c cs (turned a c e) s.1)
]

insert_sorted-Sorted : (a : Range) (rs : List Range) → Sorted rs → Sorted (insert_sorted a rs)
unfolding Sorted SortedFrom insert_sorted
insert_sorted-Sorted a [] s = tt
insert_sorted-Sorted a (b ∷ bs) s = elim (Bool-cases (comes_first a b)) [
  | inl e ↦ rw (insert_before a b bs e) (e, s)
  | inr e ↦ rw (insert_after a b bs e) (insert_sorted-SortedFrom a b bs (turned a b e) s)
]

sort_ranges-Sorted : (rs : List Range) → Sorted (sort_ranges rs)
unfolding Sorted sort_ranges
sort_ranges-Sorted [] = tt
sort_ranges-Sorted (a ∷ rest) = insert_sorted-Sorted a (sort_ranges rest) (sort_ranges-Sorted rest)

comes_first_trans :
    (a b c : Range) → comes_first a b ≡ true → comes_first b c ≡ true → comes_first a c ≡ true
unfolding comes_first
comes_first_trans a b c h k = ground arith

SortedFrom-trans :
    (a b : Range) (rs : List Range) → comes_first a b ≡ true → SortedFrom b rs → SortedFrom a rs
unfolding SortedFrom
SortedFrom-trans a b [] h s = tt
SortedFrom-trans a b (c ∷ cs) h s = (comes_first_trans a b c h s.0, s.1)

lies_in-le : (r a : Range) → lies_in r a ≡ true → (a.start ≤ r.start) × (r.end ≤ a.end)
unfolding lies_in
lies_in-le r a h = ground arith

apart-lt :
    (a r : Range)
    → comes_first a r ≡ true
    → lies_in r a ≡ false
    → (a.start < r.start) × (a.end < r.end)
unfolding lies_in comes_first
apart-lt a r h k = ground arith

AllCovered-weaken : (a : Range) (qs rs : List Range) → AllCovered qs rs → AllCovered qs (a ∷ rs)
unfolding AllCovered Covered
AllCovered-weaken a [] rs h = tt
AllCovered-weaken a (q ∷ qs) rs h = (inr h.0, AllCovered-weaken a qs rs h.1)

-- what the loop does from a range on
record Sweeps (a : Range) (rs : List Range) (out : List Range × List Range) : Type 0 where
  counts : (q : Range) → count q out.0 + count q out.1 ≡ count q rs
  covered : AllCovered out.1 (a ∷ out.0)
  rises : RisesFrom a out.0

sweeps : (a : Range) (rs : List Range) → SortedFrom a rs → Sweeps a rs (sweep a rs)
unfolding sweep SortedFrom count AllCovered Covered RisesFrom
sweeps a [] s = record { counts = λ q. refl; covered = tt; rises = tt }
sweeps a (b ∷ bs) s = elim (Bool-cases (lies_in b a)) [
  | inl e ↦
      let w = sweeps a bs (SortedFrom-trans a b bs s.0 s.1) in
      subst (Sweeps a (b ∷ bs)) (sym (sweep_in a b bs e)) (record {
        counts = λ q. omega (arith, w.counts q);
        covered = (inl (lies_in-le b a e), w.covered);
        rises = w.rises;
      })
  | inr e ↦
      let w = sweeps b bs s.1 in
      let lt = apart-lt a b s.0 e in
      subst (Sweeps a (b ∷ bs)) (sym (sweep_out a b bs e)) (record {
        counts = λ q. omega (arith, w.counts q);
        covered = AllCovered-weaken a _ _ w.covered;
        rises = (lt.0, lt.1, w.rises);
      })
]

-- what consolidation promises
pub record Consolidates (ranges : List Range) (out : List Range × List Range) : Type 0 where
  pub counts : (q : Range) → count q out.0 + count q out.1 ≡ count q ranges
  pub covered : AllCovered out.1 out.0
  pub rises : Rises out.0

-- Whatever ranges are found, in any order: each of them is kept or removed, as often as it was
-- found; what is removed lies in a range that is kept; starts and ends rise along what is kept.
pub consolidate_ranges-Consolidates :
    (ranges : List Range) → Consolidates ranges (consolidate_ranges ranges)
unfolding consolidate_ranges Sorted count AllCovered Rises
consolidate_ranges-Consolidates ranges =
    go (sort_ranges ranges) (sort_ranges-Sorted ranges) (λ q. count-sort_ranges q ranges)
  where
    go :
        (rs : List Range)
        → Sorted rs
        → ((q : Range) → count q rs ≡ count q ranges)
        → Consolidates ranges (swept rs)
    go [] s e = record { counts = λ q. e q; covered = tt; rises = tt }
    go (a ∷ bs) s e =
        let w = sweeps a bs s in
        record {
          counts = λ q. omega (arith, w.counts q, e q);
          covered = w.covered;
          rises = w.rises;
        }
