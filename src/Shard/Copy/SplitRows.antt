-- ===== src/Shard/Copy/SplitRows.antt =====
-- Splitting all rows of a file.
use candystore.Base.{ℕ, zero, suc, ◌+◌, ◌≤◌, ◌<◌, ◌^◌, ◌≡◌, refl, sym, ap, subst, ◌∙◌, Bool, arith}
use candystore.Base.Bytes.{Bytes}
use candystore.Hashing.{Hasher, invalid_sig, row_width}
use candystore.Shard.Mmap.{MmapFile}
use candystore.Shard.Mmap.Extends.{IsBacked}
use candystore.Shard.Entry.Model.{RowInv, view_row}
use candystore.Shard.Copy.Prefix.{cells_size}
use candystore.Shard.Copy.Half.{filtered, start-Copied}
use native.Mathlib.Decide.{ℕ_discrete}
use candystore.Shard.Copy.Split.{Splits, Splits-pure, Splits-bind, low, high}
use candystore.Shard.Copy.SplitRow.{IsHalf, splits_from}
use candystore.Shard.Copy.{split_rows}
use candystore.Shard.Entry.Model.{RowInv-Extends, view_row-Extends}
use candystore.Hashing.{num_rows}

-- the lengths of the entries of `n` rows from `r` on
unfoldable pub rows_size : MmapFile → ℕ → ℕ → ℕ
rows_size src zero r = 0
rows_size src (suc n) r = cells_size (src.rows r) row_width 0 + rows_size src n (r + 1)

module _ {hash : Hasher} {src : MmapFile} (sb : IsBacked src)
    (inv : (s : ℕ) → s < num_rows → RowInv hash src s (src.rows s)) where
  -- the rows below `r` hold what passes, the others hold nothing
  pub record RowsDone (p : Bytes → Bool) (r : ℕ) (m : MmapFile) : Type 0 where
    pub backed : IsBacked m
    pub valid : (s : ℕ) → s < r → RowInv hash m s (m.rows s)
    pub view :
        (s : ℕ)
        → s < r
        → (q : Bytes) → view_row m.file (m.rows s) q ≡ filtered p (view_row src.file (src.rows s)) q
    pub free : (s j : ℕ) → r ≤ s → (m.rows s).signatures j ≡ invalid_sig

  one_more :
      {p : Bytes → Bool} {r size : ℕ} {m g : MmapFile} (lt : r < num_rows)
      → RowsDone p r m
      → IsHalf sb (inv r lt) p size m g
      → RowsDone p (r + 1) g
  one_more {p} {r} {m = m} {g} lt d h = record {
    backed = h.extends.backed;
    valid = λ s below. elim (ℕ_discrete s r) [
      | yes e ↦ subst (λ a. RowInv hash g a (g.rows a)) (sym e) h.valid
      | no ne ↦ rw (h.elsewhere s ne) (RowInv-Extends h.extends (d.valid s (omega arith)))
    ];
    view = λ s below q. elim (ℕ_discrete s r) [
      | yes e ↦
          subst (λ a. view_row g.file (g.rows a) q ≡ filtered p (view_row src.file (src.rows a)) q)
            (sym e) (h.view q)
      | no ne ↦
          ap (λ row. view_row g.file row q) (h.elsewhere s ne)
          ∙ view_row-Extends h.extends (d.valid s (omega arith)) q
          ∙ d.view s (omega arith) q
    ];
    free = λ s j le.
        ap (λ row. row.signatures j) (h.elsewhere s (omega arith)) ∙ d.free s j (omega arith);
  }

  pub record HalvedRows (mid n r : ℕ) (b t : MmapFile) : Type 0 where
    pub bottom : MmapFile
    pub top : MmapFile
    pub splits : Splits (split_rows hash src mid n r) b t tt bottom top
    pub low_half : RowsDone (low hash mid) num_rows bottom
    pub high_half : RowsDone (high hash mid) num_rows top

  pub splits_rows :
      (mid n r : ℕ) (b t : MmapFile)
      → r + n ≡ num_rows
      → RowsDone (low hash mid) r b
      → RowsDone (high hash mid) r t
      → b.write_offset + rows_size src n r < 2 ^ 32
      → t.write_offset + rows_size src n r < 2 ^ 32
      → HalvedRows mid n r b t
  unfolding split_rows rows_size
  splits_rows mid zero r b t e db dt fb ft = record {
    bottom = b;
    top = t;
    splits = Splits-pure tt b t;
    low_half = subst (λ k. RowsDone (low hash mid) k b) (omega (arith, e)) db;
    high_half = subst (λ k. RowsDone (high hash mid) k t) (omega (arith, e)) dt;
  }
  splits_rows mid (suc n) r b t e db dt fb ft =
      let lt : r < num_rows = omega arith in
      let h =
        splits_from sb (inv r lt) mid row_width 0 0 0 b t refl
          (start-Copied sb (inv r lt) (low hash mid) b db.backed (λ j. db.free r j (omega arith)))
          (start-Copied sb (inv r lt) (high hash mid) t dt.backed (λ j. dt.free r j (omega arith)))
          (omega (arith, fb)) (omega (arith, ft)) in
      let rest =
        splits_rows mid n (r + 1) h.bottom h.top (omega (arith, e)) (one_more lt db h.low_half)
          (one_more lt dt h.high_half) (omega (arith, fb, h.low_half.grows))
          (omega (arith, ft, h.high_half.grows)) in
      record {
        bottom = rest.bottom;
        top = rest.top;
        splits = Splits-bind _ h.splits rest.splits;
        low_half = rest.low_half;
        high_half = rest.high_half;
      }
