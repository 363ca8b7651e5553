-- ===== src/Shard/Copy/Laws.antt =====
-- Compaction of a row: the target row stands for the same map as the source row.
use candystore.Base.{
  ℕ, zero, suc, ◌+◌, ◌<◌, ◌^◌, ◌≡◌, ◌≢◌, refl, sym, subst, ◌∙◌, Bool, true, ◌||◌, ◌==◌, ==_iff,
  arith,
}
use candystore.Base.Bytes.{Bytes}
use candystore.Hashing.{Hasher, parted_hash, signature, invalid_sig, row_width}
use candystore.Shard.Row.{ShardRow}
use candystore.Shard.Mmap.{MmapFile}
use candystore.Shard.Mmap.Runs.{Runs, Runs-pure, Runs-bind, Runs-gets, Runs-read_kv}
use candystore.Shard.Mmap.Extends.{IsBacked, Extends, Extends-refl, Extends-trans}
use candystore.Shard.Entry.Model.{Used, RowInv, view_row}
use candystore.Shard.Entry.Place.{Runs-place}
use candystore.Shard.Copy.{transfer, copy_cols}
use candystore.Shard.Copy.Half.{
  Copied, key, val, after, free_here, after-Writes, after_offset, after-Copied, free-Copied,
  start-Copied,
}
use native.Mathlib.Decide.{ℕ_discrete}
use candystore.Shard.Copy.Prefix.{
  orb, cells_size, cells_size_free, cells_size-Used, copy_cols_free, copy_cols-Used,
  view_prefix_all,
}

module _ {hash : Hasher} {src : MmapFile} {r : ℕ} (sb : IsBacked src)
    (inv : RowInv hash src r (src.rows r)) where
  abbrev row : ShardRow
  row = src.rows r

  abbrev all : Bytes → Bool
  all q = true

  abbrev AllCopied : MmapFile → ℕ → ℕ → Type 0
  AllCopied t col target_col = Copied sb inv all t col target_col

  module _ {t : MmapFile} {col target_col : ℕ} (c : AllCopied t col target_col)
      (lt : col < row_width) (used : Used row col) (fits : t.write_offset < 2 ^ 32)
      (first_row : Bool) where
    guarded : (first_row || (t.rows r).signatures target_col == invalid_sig) ≡ true
    guarded = rw (free_here sb inv all c lt used fits) (orb first_row)

    Runs-transfer :
        Runs (transfer hash src r col target_col first_row) t tt (after sb inv all c lt used fits)
    unfolding transfer key val after
    Runs-transfer =
        Runs-bind _
          (Runs-read_kv src.file (row.offsets_and_sizes col) t
            (omega (arith, (inv.cells col lt used).fits)))
          (Runs-bind _ (Runs-gets t) (
            rw (guarded, (==_iff _ _).1 (inv.cells col lt used).home)
              (Runs-bind _ (Runs-pure tt t) (
                Runs-bind _ (Runs-pure tt t) (
                  Runs-place r target_col
                    (signature (parted_hash hash (key sb inv all c lt used fits)))
                    (key sb inv all c lt used fits) (val sb inv all c lt used fits) t)))))

  -- the copy of the row is complete
  pub record Complete (t g : MmapFile) : Type 0 where
    pub extends : Extends t g
    pub elsewhere : (s : ℕ) → s ≢ r → g.rows s ≡ t.rows s
    pub valid : RowInv hash g r (g.rows r)
    pub view : (q : Bytes) → view_row g.file (g.rows r) q ≡ view_row src.file row q
    pub frontier : g.compacted_up_to ≡ t.compacted_up_to

  copy_from :
      (n col target_col : ℕ) (t : MmapFile) (first_row : Bool)
      → col + n ≡ row_width
      → AllCopied t col target_col
      → t.write_offset + cells_size row n col < 2 ^ 32
      → (g : MmapFile) × Runs (copy_cols hash src r first_row n col target_col) t tt g
        × Complete t g
  unfolding copy_cols
  copy_from zero col target_col t first_row e c fits = (
    t,
    Runs-pure tt t,
    record {
      extends = Extends-refl t c.backed;
      elsewhere = λ s ne. refl;
      valid = c.valid;
      view = λ q. c.view q ∙ view_prefix_all src.file row col q (omega arith);
      frontier = refl;
    },
  )
  copy_from (suc n) col target_col t first_row e c fits =
      elim (ℕ_discrete (row.signatures col) invalid_sig) [
        | yes free ↦
            let (g, runs, done) =
              copy_from n (col + 1) target_col t first_row (omega arith)
                (free-Copied sb inv all c free) (omega (arith, cells_size_free row n col free)) in
            (
              g,
              subst (λ m. Runs m t tt g)
                  (sym (copy_cols_free hash src r first_row n col target_col free)) runs,
              done,
            )
        | no used ↦
            let size = cells_size-Used row n col used in
            let small : t.write_offset < 2 ^ 32 = omega arith in
            let lt : col < row_width = omega arith in
            let w = after-Writes sb inv all c lt used small in
            let (g, runs, done) =
              copy_from n (col + 1) (target_col + 1) (after sb inv all c lt used small) first_row
                (omega arith) (after-Copied sb inv all c lt used small refl)
                (omega (arith, size, after_offset sb inv all c lt used small)) in
            (
              g,
              subst (λ m. Runs m t tt g)
                  (sym (copy_cols-Used hash src r first_row n col target_col used))
                  (Runs-bind _ (Runs-transfer c lt used small first_row) runs),
              record {
                extends = Extends-trans w.extends done.extends;
                elsewhere = λ s ne. done.elsewhere s ne ∙ w.elsewhere s ne;
                valid = done.valid;
                view = done.view;
                frontier = done.frontier ∙ w.frontier;
              },
            )
      ]

  -- From a valid row of a backed source, to a row of a backed target whose cells are all free, with
  -- room for the entries: the copy raises no error, leaves a valid row that reads as the source
  -- does under every key, and changes no other row of the target.
  pub Runs-copy_cols :
      (t : MmapFile) (first_row : Bool)
      → IsBacked t
      → ((j : ℕ) → (t.rows r).signatures j ≡ invalid_sig)
      → t.write_offset + cells_size row row_width 0 < 2 ^ 32
      → (g : MmapFile) × Runs (copy_cols hash src r first_row row_width 0 0) t tt g × Complete t g
  Runs-copy_cols t first_row b free fits =
      copy_from row_width 0 0 t first_row refl (start-Copied sb inv all t b free) fits
