-- ===== src/Shard/Copy.antt =====
-- The loops of src/shard.rs that rewrite entries into a new file: `do_compaction`, `split`, `merge`.
pub mod Prefix
pub mod Half
pub mod Split
pub mod SplitRow
pub mod SplitRows
pub mod Laws
use candystore.Base.{
  ℕ, zero, suc, ◌+◌, ◌-◌, ◌/◌, Bool, true, false, ◌||◌, Option, none, some, ltb, leb, ◌==◌,
  if◌then◌else◌,
}
use candystore.Base.Bytes.{Bytes}
use candystore.Base.Outcome.{
  Exec, Result, ok, err, pure, fail, gets, guard, out_of_fuel, ◌>>=◌, ◌>>◌,
}
use candystore.Hashing.{
  Hasher, parted_hash, shard_selector, row_selector, signature, invalid_sig, row_width, num_rows,
}
use candystore.Stats.{InternalStats, fetch_add}
use candystore.Shard.Row.{ShardRow}
use candystore.Shard.Mmap.{MmapFile, KvPair, Io, read_kv, on_stats, on_mmap, place}

-- an entry of `src` is read, checked against its row, and placed in column `col` of the target
unfoldable pub transfer : Hasher → MmapFile → ℕ → ℕ → ℕ → Bool → Exec Io (Unit {0})
transfer hash src r src_col col first_row = do
  kv ← on_stats (read_kv src.file ((src.rows r).offsets_and_sizes src_col))
  target ← gets (λ s. s.mmap)
  guard (first_row || (target.rows r).signatures col == invalid_sig)
  guard (row_selector (parted_hash hash kv.0) == r)
  place r col (signature (parted_hash hash kv.0)) kv.0 kv.1

-- the columns `src_col ..` of one row, `n` of them; `col` is `target_col`
unfoldable pub copy_cols : Hasher → MmapFile → ℕ → Bool → ℕ → ℕ → ℕ → Exec Io (Unit {0})
copy_cols hash src r first_row zero src_col col = pure tt
copy_cols hash src r first_row (suc n) src_col col =
    elim ((src.rows r).signatures src_col == invalid_sig) [
      | true ↦ copy_cols hash src r first_row n (src_col + 1) col
      | false ↦ do
        transfer hash src r src_col col first_row
        copy_cols hash src r first_row n (src_col + 1) (col + 1)
    ]

-- one round of the loop of `do_compaction`, under the lock of its row
unfoldable pub compact_row : Hasher → MmapFile → Bool → Exec Io (Unit {0})
compact_row hash src first_row = do
  target ← gets (λ s. s.mmap)
  copy_cols hash src target.compacted_up_to first_row row_width 0 0
  on_mmap (λ m. record m { compacted_up_to = fetch_add m.compacted_up_to 1 })

-- `Shard::do_compaction` without interruption; `num_rows + 1` rounds of fuel are enough
unfoldable pub do_compaction : ℕ → Hasher → MmapFile → Bool → Exec Io (Unit {0})
do_compaction zero hash src first_row = fail out_of_fuel
do_compaction (suc fuel) hash src first_row = do
  target ← gets (λ s. s.mmap)
  elim (leb num_rows target.compacted_up_to) [
    | true ↦ pure tt
    | false ↦ do compact_row hash src first_row; do_compaction fuel hash src false
  ]

-- the two files of a split, and the columns that come next in each
pub record Halves : Type 0 where
  pub bottom : MmapFile
  pub top : MmapFile
  pub stats : InternalStats

abbrev pub on_bottom : {A : Type 0} → Exec Io A → Exec Halves A
on_bottom m s =
    let (r, io) = m (record { mmap = s.bottom; stats = s.stats }) in
    (r, record s { bottom = io.mmap; stats = io.stats })

abbrev pub on_top : {A : Type 0} → Exec Io A → Exec Halves A
on_top m s =
    let (r, io) = m (record { mmap = s.top; stats = s.stats }) in
    (r, record s { top = io.mmap; stats = io.stats })

-- one entry of the row that is split: it goes to the half that covers its shard selector
place_half : Hasher → ℕ → ℕ → KvPair → Exec Io (Unit {0})
place_half hash r col kv = do
  target ← gets (λ s. s.mmap)
  guard ((target.rows r).signatures col == invalid_sig)
  place r col (signature (parted_hash hash kv.0)) kv.0 kv.1

-- the inner loop of `Shard::split`
unfoldable pub split_cols : Hasher → MmapFile → ℕ → ℕ → ℕ → ℕ → ℕ → ℕ → Exec Halves (Unit {0})
unfolding place_half
split_cols hash src mid r zero src_col bottom_col top_col = pure tt
split_cols hash src mid r (suc n) src_col bottom_col top_col =
    elim ((src.rows r).signatures src_col == invalid_sig) [
      | true ↦ split_cols hash src mid r n (src_col + 1) bottom_col top_col
      | false ↦ do
        kv ← on_bottom (on_stats (read_kv src.file ((src.rows r).offsets_and_sizes src_col)))
        guard (row_selector (parted_hash hash kv.0) == r)
        elim (ltb (shard_selector (parted_hash hash kv.0)) mid) [
          | true ↦ do
            on_bottom (place_half hash r bottom_col kv)
            split_cols hash src mid r n (src_col + 1) (bottom_col + 1) top_col
          | false ↦ do
            on_top (place_half hash r top_col kv)
            split_cols hash src mid r n (src_col + 1) bottom_col (top_col + 1)
        ]
    ]

-- the outer loop: `n` rows from `r` on
unfoldable pub split_rows : Hasher → MmapFile → ℕ → ℕ → ℕ → Exec Halves (Unit {0})
split_rows hash src mid zero r = pure tt
split_rows hash src mid (suc n) r = do
  split_cols hash src mid r row_width 0 0 0
  split_rows hash src mid n (r + 1)

-- one source's part of a row of `Shard::merge`: the next column, or `none` if the row is full
unfoldable pub merge_cols : Hasher → MmapFile → ℕ → ℕ → ℕ → ℕ → Exec Io (Option ℕ)
merge_cols hash src r zero src_col target_col = pure (some target_col)
merge_cols hash src r (suc n) src_col target_col =
    elim ((src.rows r).signatures src_col == invalid_sig) [
      | true ↦ merge_cols hash src r n (src_col + 1) target_col
      | false ↦ do
        kv ← on_stats (read_kv src.file ((src.rows r).offsets_and_sizes src_col))
        guard (row_selector (parted_hash hash kv.0) == r)
        elim (leb row_width target_col) [
          | true ↦ pure none
          | false ↦ do
            target ← gets (λ s. s.mmap)
            guard ((target.rows r).signatures target_col == invalid_sig)
            place r target_col (signature (parted_hash hash kv.0)) kv.0 kv.1
            merge_cols hash src r n (src_col + 1) (target_col + 1)
        ]
    ]

-- `true` if every row of both sources fits
unfoldable pub merge_rows : Hasher → MmapFile → MmapFile → ℕ → ℕ → Exec Io Bool
merge_rows hash bottom top zero r = pure true
merge_rows hash bottom top (suc n) r = do
  middle ← merge_cols hash bottom r row_width 0 0
  elim middle [
    | none ↦ pure false
    | some target_col ↦ do
      last ← merge_cols hash top r row_width 0 target_col
      elim last [ none ↦ pure false | some _ ↦ merge_rows hash bottom top n (r + 1) ]
  ]
