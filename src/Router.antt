-- ===== src/Router.antt =====
-- src/router.rs: the choice among the shard files that an unfinished split left behind. A file
-- covers a range of shard selectors.
pub mod Laws
pub mod Tree
use candystore.Base.{ℕ, Bool, true, false, ◌&&◌, List, [], ◌∷◌, ltb, leb, ◌==◌, if◌then◌else◌}

-- `Range<u32>`
pub record Range : Type 0 where
  pub start : ℕ
  pub end : ℕ

-- the comparison of the sort: by `start`, then by `end` downwards; `true` if `a` may stay first
unfoldable pub comes_first : Range → Range → Bool
comes_first a b = if a.start == b.start then leb b.end a.end else ltb a.start b.start

-- `sort_by`, which is stable
unfoldable pub insert_sorted : Range → List Range → List Range
insert_sorted a [] = a ∷ []
insert_sorted a (b ∷ bs) = elim (comes_first a b) [
  | true ↦ a ∷ b ∷ bs
  | false ↦ b ∷ insert_sorted a bs
]

unfoldable pub sort_ranges : List Range → List Range
sort_ranges [] = []
sort_ranges (a ∷ rest) = insert_sorted a (sort_ranges rest)

-- the test of the loop: `r` lies in the range before it
unfoldable pub lies_in : Range → Range → Bool
lies_in r prev = leb prev.start r.start && leb r.end prev.end

-- the loop from the index `i` on, where `prev` is `ranges[i - 1]`: what is kept, what is removed
unfoldable pub sweep : Range → List Range → List Range × List Range
sweep prev [] = ([], [])
sweep prev (r ∷ rs) = elim (lies_in r prev) [
  | true ↦ let rest = sweep prev rs in (rest.0, r ∷ rest.1)
  | false ↦ let rest = sweep r rs in (r ∷ rest.0, rest.1)
]

abbrev swept : List Range → List Range × List Range
swept [] = ([], [])
swept (first ∷ rs) = let rest = sweep first rs in (first ∷ rest.0, rest.1)

-- `consolidate_ranges`
unfoldable pub consolidate_ranges : List Range → List Range × List Range
consolidate_ranges ranges = swept (sort_ranges ranges)
