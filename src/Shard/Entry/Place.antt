-- ===== src/Shard/Entry/Place.antt =====
-- A new entry in a free cell of a row that does not have its key.
use candystore.Base.{ℕ, ◌<◌, ◌≡◌, ◌≢◌, refl, sym, ◌∙◌, Bool, true, false, none, some, arith, ==_iff}
use candystore.Base.Bytes.{Bytes}
use candystore.Base.Search.{position-IsFirst, position-NoneIn}
use mathlib.Core.Bool.{false≢true}
use candystore.Hashing.{Hasher, parted_hash, signature, row_selector, invalid_sig, row_width}
use candystore.Stats.{fetch_add}
use candystore.Shard.Row.{ShardRow, lookup}
use candystore.Shard.Mmap.{MmapFile, set_offset, set_signature, place}
use candystore.Shard.Mmap.Runs.{Runs, Runs-bind, mmap_then, Runs-on_mmap, key_at}
use candystore.Shard.Mmap.Extends.{IsBacked, Room, appended, new_offset, Runs-write_kv}
use candystore.Shard.Entry.Model.{Used, RowInv, cell_of, view_row, has_key-intro}
use candystore.Shard.Entry.Writes.{Writes, Points, points-Writes}

-- the file after `place`
abbrev pub placed : MmapFile → ℕ → ℕ → ℕ → Bytes → Bytes → MmapFile
placed m r i sig key val =
    let a = set_signature r i sig (set_offset r i (new_offset m key val) (appended m key val)) in
    record a { num_inserts = fetch_add a.num_inserts 1 }

pub Runs-place :
    (r i sig : ℕ) (key val : Bytes) (m : MmapFile)
    → Runs (place r i sig key val) m tt (placed m r i sig key val)
unfolding place
Runs-place r i sig key val m =
    Runs-bind _ (Runs-write_kv key val m) (mmap_then _ (mmap_then _ (Runs-on_mmap _ _)))

pub placed-Points :
    (m : MmapFile) (r i sig : ℕ) (key val : Bytes)
    → Points m (placed m r i sig key val) r i key val sig
placed-Points m r i sig key val = record {
  data_of = record { offset = refl; file = refl };
  elsewhere = λ s ne. ground arith;
  others = λ j ne. (ground arith, ground arith);
  offset = ground arith;
  signed = ground arith;
  frontier = refl;
}

-- `true` if the row has no free cell
pub is_full : ShardRow → Bool
is_full row = elim (lookup row invalid_sig 0) [ none ↦ true | some i ↦ false ]

pub is_full-none : (row : ShardRow) → lookup row invalid_sig 0 ≡ none → is_full row ≡ true
unfolding is_full
is_full-none row e = rw (e, is_full)

pub is_full-some :
    (row : ShardRow) (i : ℕ) → lookup row invalid_sig 0 ≡ some i → is_full row ≡ false
unfolding is_full
is_full-some row i e = rw (e, is_full)

pub free_cell :
    (row : ShardRow) (i : ℕ)
    → lookup row invalid_sig 0 ≡ some i
    → (i < row_width) × (row.signatures i ≡ invalid_sig)
unfolding lookup
free_cell row i e =
    let f = position-IsFirst _ row_width 0 i e in (omega (arith, f.below), (==_iff _ _).0 f.holds)

pub view_row-none :
    (f : candystore.Shard.Disk.File) (row : ShardRow) (key : Bytes)
    → cell_of f row key ≡ none
    → view_row f row key ≡ none
unfolding view_row
view_row-none f row key e = rw e

module _ {hash : Hasher} {m : MmapFile} {r : ℕ} {key val : Bytes} (b : IsBacked m)
    (room : Room m key val) (home : row_selector (parted_hash hash key) ≡ r)
    (inv : RowInv hash m r (m.rows r)) where
  -- the row has no cell with the key
  module _ (absent : cell_of m.file (m.rows r) key ≡ none) where
    nowhere :
        (j : ℕ)
        → j < row_width
        → Used (m.rows r) j
        → key_at m.file ((m.rows r).offsets_and_sizes j) ≢ key
    unfolding cell_of
    nowhere j lt u e = false≢true (
        sym (position-NoneIn _ row_width 0 absent j (omega arith) (omega arith))
        ∙ has_key-intro m.file (m.rows r) key j u (sym e))

    pub placed-Writes :
        (i : ℕ)
        → i < row_width
        → (m.rows r).signatures i ≡ invalid_sig
        → Writes hash m (placed m r i (signature (parted_hash hash key)) key val) r key (some val)
    placed-Writes i lt free =
        points-Writes (placed-Points m r i (signature (parted_hash hash key)) key val) b room home
          inv lt (λ j lj ne u. nowhere j lj u) (λ u. absurd (u free))
