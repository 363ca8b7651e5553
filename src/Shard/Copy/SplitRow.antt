-- ===== src/Shard/Copy/SplitRow.antt =====
-- Splitting a row: each half stands for the entries whose keys belong to it.
use candystore.Base.{
  ℕ, zero, suc, ◌+◌, ◌≤◌, ◌<◌, ◌^◌, ◌≡◌, ◌≢◌, refl, sym, ap, subst, ◌∙◌, Bool, true, false, none,
  ◌==◌, if◌then◌else◌, ==_iff, ==_self, ==_of_ne, Bool-cases, inl, inr, arith,
}
use candystore.Base.Bytes.{Bytes}
use candystore.Base.Outcome.{guard, ◌>>=◌, ◌>>◌}
use candystore.Hashing.{Hasher, parted_hash, row_selector, signature, invalid_sig, row_width}
use candystore.Shard.Mmap.{MmapFile, on_stats, read_kv}
use candystore.Shard.Mmap.Runs.{Runs, Runs-pure, Runs-bind, Runs-gets, Runs-read_kv, key_at, val_at}
use candystore.Shard.Mmap.Extends.{IsBacked, Extends, Extends-refl, Extends-trans}
use candystore.Shard.Entry.Model.{Used, RowInv, view_row}
use candystore.Shard.Entry.Place.{Runs-place}
use candystore.Shard.Copy.{on_bottom, on_top, place_half, split_cols}
use candystore.Shard.Copy.Prefix.{cells_size, cells_size_free, cells_size-Used, view_prefix_all}
use candystore.Shard.Copy.Half.{
  Copied, filtered, key, val, after, free_here, after-Writes, after_offset, after-Copied,
  skip-Copied, free-Copied,
}
use native.Mathlib.Decide.{ℕ_discrete}
use candystore.Shard.Copy.Split.{
  Splits, Splits-pure, Splits-bind, Splits-on_bottom, Splits-on_top, low, high,
}

module _ (hash : Hasher) (src : MmapFile) (mid r n col bottom_col top_col : ℕ) where
  split_cols_free :
      (src.rows r).signatures col ≡ invalid_sig
      → split_cols hash src mid r (suc n) col bottom_col top_col
        ≡ split_cols hash src mid r n (col + 1) bottom_col top_col
  unfolding split_cols
  split_cols_free e = rw (e, split_cols) refl

  split_cols-Used :
      Used (src.rows r) col
      → split_cols hash src mid r (suc n) col bottom_col top_col ≡ (do
        kv ← on_bottom (on_stats (read_kv src.file ((src.rows r).offsets_and_sizes col)))
        guard (row_selector (parted_hash hash kv.0) == r)
        elim (low hash mid kv.0) [
          | true ↦ do
            on_bottom (place_half hash r bottom_col kv)
            split_cols hash src mid r n (col + 1) (bottom_col + 1) top_col
          | false ↦ do
            on_top (place_half hash r top_col kv)
            split_cols hash src mid r n (col + 1) bottom_col (top_col + 1)
        ])
  unfolding split_cols
  split_cols-Used u = rw (==_of_ne _ _ u, split_cols) refl

module _ {hash : Hasher} {src : MmapFile} {r : ℕ} (sb : IsBacked src)
    (inv : RowInv hash src r (src.rows r)) where
  module _ (p : Bytes → Bool) {t : MmapFile} {col target_col : ℕ}
      (c : Copied sb inv p t col target_col) (lt : col < row_width) (used : Used (src.rows r) col)
      (fits : t.write_offset < 2 ^ 32) where
    Runs-place_half :
        Runs
          (place_half hash r target_col (key sb inv p c lt used fits, val sb inv p c lt used fits))
          t
          tt
          (after sb inv p c lt used fits)
    unfolding place_half after
    Runs-place_half = Runs-bind _ (Runs-gets t) (
        rw (free_here sb inv p c lt used fits, ==_self invalid_sig)
          (Runs-bind _ (Runs-pure tt t) (
            Runs-place r target_col (signature (parted_hash hash (key sb inv p c lt used fits)))
              (key sb inv p c lt used fits) (val sb inv p c lt used fits) t)))

  abbrev key_of : ℕ → Bytes
  key_of col = key_at src.file ((src.rows r).offsets_and_sizes col)

  reads :
      (col : ℕ) (b : MmapFile)
      → col < row_width
      → Used (src.rows r) col
      → Runs
          (on_stats (read_kv src.file ((src.rows r).offsets_and_sizes col)))
          b
          (key_of col, val_at src.file ((src.rows r).offsets_and_sizes col))
          b
  reads col b lt used =
      Runs-read_kv src.file ((src.rows r).offsets_and_sizes col) b
        (omega (arith, (inv.cells col lt used).fits))

  -- a half of the row is complete
  pub record IsHalf (p : Bytes → Bool) (size : ℕ) (t g : MmapFile) : Type 0 where
    pub extends : Extends t g
    pub elsewhere : (s : ℕ) → s ≢ r → g.rows s ≡ t.rows s
    pub valid : RowInv hash g r (g.rows r)
    pub view :
        (q : Bytes) → view_row g.file (g.rows r) q ≡ filtered p (view_row src.file (src.rows r)) q
    pub grows : g.write_offset ≤ t.write_offset + size

  module _ (p : Bytes → Bool) {t : MmapFile} {col target_col : ℕ}
      (c : Copied sb inv p t col target_col) where
    all-IsHalf : col ≡ row_width → IsHalf p 0 t t
    all-IsHalf e = record {
      extends = Extends-refl t c.backed;
      elsewhere = λ s ne. refl;
      valid = c.valid;
      view = λ q.
          c.view q
          ∙ ap (λ o. if p q then o else none) (view_prefix_all src.file (src.rows r) col q e);
      grows = omega arith;
    }

    module _ (lt : col < row_width) (used : Used (src.rows r) col)
        (fits : t.write_offset < 2 ^ 32) where
      abbrev grown : MmapFile
      grown = after sb inv p c lt used fits

      placed-IsHalf :
          (n : ℕ) {g : MmapFile}
          → IsHalf p (cells_size (src.rows r) n (col + 1)) grown g
          → IsHalf p (cells_size (src.rows r) (suc n) col) t g
      placed-IsHalf n d =
          let w = after-Writes sb inv p c lt used fits in
          record {
            extends = Extends-trans w.extends d.extends;
            elsewhere = λ s ne. d.elsewhere s ne ∙ w.elsewhere s ne;
            valid = d.valid;
            view = d.view;
            grows = omega (
              arith,
              d.grows,
              after_offset sb inv p c lt used fits,
              cells_size-Used (src.rows r) n col used,
            );
          }

  less-IsHalf :
      {p : Bytes → Bool} {size size' : ℕ} {t g : MmapFile}
      → size ≤ size'
      → IsHalf p size t g
      → IsHalf p size' t g
  less-IsHalf le d = record {
    extends = d.extends;
    elsewhere = d.elsewhere;
    valid = d.valid;
    view = d.view;
    grows = omega (arith, d.grows, le);
  }

  module _ (mid : ℕ) where
    pub record Halved (n col bottom_col top_col : ℕ) (b t : MmapFile) : Type 0 where
      pub bottom : MmapFile
      pub top : MmapFile
      pub splits : Splits (split_cols hash src mid r n col bottom_col top_col) b t tt bottom top
      pub low_half : IsHalf (low hash mid) (cells_size (src.rows r) n col) b bottom
      pub high_half : IsHalf (high hash mid) (cells_size (src.rows r) n col) t top

    module _ {n col bottom_col top_col : ℕ} {b t : MmapFile}
        (cb : Copied sb inv (low hash mid) b col bottom_col)
        (ct : Copied sb inv (high hash mid) t col top_col) (lt : col < row_width)
        (used : Used (src.rows r) col) (fb : b.write_offset < 2 ^ 32)
        (ft : t.write_offset < 2 ^ 32) where
      to_low :
          low hash mid (key_of col) ≡ true
          → Halved n
              (col + 1)
              (bottom_col + 1)
              top_col
              (after sb inv (low hash mid) cb lt used fb)
              t
          → Halved (suc n) col bottom_col top_col b t
      unfolding key val
      to_low pass h = record {
        bottom = h.bottom;
        top = h.top;
        splits =
            subst (λ m. Splits m b t tt h.bottom h.top)
              (sym (split_cols-Used hash src mid r n col bottom_col top_col used))
              (Splits-bind _ (Splits-on_bottom t (reads col b lt used)) (
                rw ((==_iff _ _).1 (inv.cells col lt used).home, pass)
                  (Splits-bind _ (Splits-pure tt b t) (
                    Splits-bind _
                      (Splits-on_bottom t (Runs-place_half (low hash mid) cb lt used fb))
                      h.splits))));
        low_half = placed-IsHalf (low hash mid) cb lt used fb n h.low_half;
        high_half =
            less-IsHalf (omega (arith, cells_size-Used (src.rows r) n col used)) h.high_half;
      }

      to_high :
          low hash mid (key_of col) ≡ false
          → Halved n
              (col + 1)
              bottom_col
              (top_col + 1)
              b
              (after sb inv (high hash mid) ct lt used ft)
          → Halved (suc n) col bottom_col top_col b t
      unfolding key val
      to_high miss h = record {
        bottom = h.bottom;
        top = h.top;
        splits =
            subst (λ m. Splits m b t tt h.bottom h.top)
              (sym (split_cols-Used hash src mid r n col bottom_col top_col used))
              (Splits-bind _ (Splits-on_bottom t (reads col b lt used)) (
                rw ((==_iff _ _).1 (inv.cells col lt used).home, miss)
                  (Splits-bind _ (Splits-pure tt b t) (
                    Splits-bind _ (Splits-on_top b (Runs-place_half (high hash mid) ct lt used ft))
                      h.splits))));
        low_half = less-IsHalf (omega (arith, cells_size-Used (src.rows r) n col used)) h.low_half;
        high_half = placed-IsHalf (high hash mid) ct lt used ft n h.high_half;
      }

    pub splits_from :
        (n col bottom_col top_col : ℕ) (b t : MmapFile)
        → col + n ≡ row_width
        → Copied sb inv (low hash mid) b col bottom_col
        → Copied sb inv (high hash mid) t col top_col
        → b.write_offset + cells_size (src.rows r) n col < 2 ^ 32
        → t.write_offset + cells_size (src.rows r) n col < 2 ^ 32
        → Halved n col bottom_col top_col b t
    unfolding split_cols cells_size key val
    splits_from zero col bottom_col top_col b t e cb ct fb ft = record {
      bottom = b;
      top = t;
      splits = Splits-pure tt b t;
      low_half = all-IsHalf (low hash mid) cb (omega arith);
      high_half = all-IsHalf (high hash mid) ct (omega arith);
    }
    splits_from (suc n) col bottom_col top_col b t e cb ct fb ft =
        elim (ℕ_discrete ((src.rows r).signatures col) invalid_sig) [
          | yes free ↦
              let size = cells_size_free (src.rows r) n col free in
              let h =
                splits_from n (col + 1) bottom_col top_col b t (omega arith)
                  (free-Copied sb inv (low hash mid) cb free)
                  (free-Copied sb inv (high hash mid) ct free) (omega (arith, size))
                  (omega (arith, size)) in
              record {
                bottom = h.bottom;
                top = h.top;
                splits =
                    subst (λ m. Splits m b t tt h.bottom h.top)
                      (sym (split_cols_free hash src mid r n col bottom_col top_col free)) h.splits;
                low_half = less-IsHalf (omega (arith, size)) h.low_half;
                high_half = less-IsHalf (omega (arith, size)) h.high_half;
              }
          | no used ↦
              let size = cells_size-Used (src.rows r) n col used in
              let lt : col < row_width = omega arith in
              let fb' : b.write_offset < 2 ^ 32 = omega (arith, fb) in
              let ft' : t.write_offset < 2 ^ 32 = omega (arith, ft) in
              elim (Bool-cases (low hash mid (key_of col))) [
                | inl pass ↦ to_low cb ct lt used fb' ft' pass (
                    splits_from n (col + 1) (bottom_col + 1) top_col
                      (after sb inv (low hash mid) cb lt used fb') t (omega arith)
                      (after-Copied sb inv (low hash mid) cb lt used fb' pass)
                      (skip-Copied sb inv (high hash mid) ct lt used ft' (rw pass refl))
                      (omega (arith, size, fb, after_offset sb inv (low hash mid) cb lt used fb'))
                      (omega (arith, size, ft)))
                | inr miss ↦ to_high cb ct lt used fb' ft' miss (
                    splits_from n (col + 1) bottom_col (top_col + 1) b
                      (after sb inv (high hash mid) ct lt used ft') (omega arith)
                      (skip-Copied sb inv (low hash mid) cb lt used fb' miss)
                      (after-Copied sb inv (high hash mid) ct lt used ft' (rw miss refl))
                      (omega (arith, size, fb))
                      (omega (arith, size, ft, after_offset sb inv (high hash mid) ct lt used ft')))
              ]
        ]
