-- ===== src/Tests/Router.antt =====
-- A run and a use of `consolidate_ranges`.
use candystore.Base.{◌≡◌, refl, [], ◌∷◌}
use candystore.Base.{List}
use candystore.Router.{
  Range, consolidate_ranges, sort_ranges, insert_sorted, comes_first, sweep, lies_in,
}
use candystore.Router.Laws.{Consolidates, consolidate_ranges-Consolidates}

abbrev found : List Range
found =
    record { start = 16; end = 32 }
    ∷ record { start = 0; end = 16 }
    ∷ record { start = 0; end = 32 }
    ∷ record { start = 48; end = 64 }
    ∷ record { start = 32; end = 48 }
    ∷ record { start = 50; end = 60 }
    ∷ []

consolidate_found : consolidate_ranges found ≡ (
  record { start = 0; end = 32 }
      ∷ record { start = 32; end = 48 }
      ∷ record { start = 48; end = 64 }
      ∷ [],
  record { start = 0; end = 16 }
      ∷ record { start = 16; end = 32 }
      ∷ record { start = 50; end = 60 }
      ∷ [],
)
unfolding consolidate_ranges sort_ranges insert_sorted comes_first sweep lies_in
consolidate_found = refl

consolidate_ranges-Consolidates_example : Consolidates found (consolidate_ranges found)
consolidate_ranges-Consolidates_example = consolidate_ranges-Consolidates found
