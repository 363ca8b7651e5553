-- ===== src/Shard/Entry/Reads.antt =====
-- `get` and `remove` on a row, against the map that the row stands for.
use candystore.Base.{
  ℕ, ◌+◌, ◌≡◌, refl, sym, Option, none, some, update_self, update_ne, inl, inr, Option-cases,
}
use candystore.Base.Bytes.{Bytes, length}
use candystore.Hashing.{Hasher, parted_hash, invalid_sig}
use candystore.Stats.{fetch_add}
use candystore.Shard.Mmap.{MmapFile, set_signature}
use candystore.Shard.Mmap.Runs.{
  Runs, Runs-pure, Runs-bind, Runs-gets, mmap_then, stats_then, key_at, val_at,
}
use candystore.Shard.Mmap.Extends.{IsBacked}
use candystore.Shard.Entry.Model.{RowInv, RowInv-Extends, cell_of, cell_of-IsCellOf, view_row}
use candystore.Shard.Entry.Writes.{Writes, Writes-same, Extends-SameData}
use candystore.Shard.Entry.Place.{view_row-none}
use candystore.Shard.Entry.Clear.{cleared, RowInv-clear, view_row-clear}
use candystore.Shard.Entry.Seek.{Runs-seek}
use candystore.Shard.Entry.{get_in_row, remove_in_row}

module _ {hash : Hasher} {m : MmapFile} {r : ℕ} (b : IsBacked m) (inv : RowInv hash m r (m.rows r))
    (key : Bytes) where
  -- From a backed file whose row is valid, `get` returns what the row holds under the key, without
  -- an error, and leaves the file alone.
  pub Runs-get_in_row :
      Runs (get_in_row r (parted_hash hash key) key) m (view_row m.file (m.rows r) key) m
  unfolding get_in_row view_row
  Runs-get_in_row = Runs-bind _ (Runs-gets m) (
      Runs-bind _ (Runs-seek b inv key m).1 (elim (Option-cases (cell_of m.file (m.rows r) key)) [
        | inl e ↦ rw e (stats_then _ (Runs-pure none m))
        | inr (i, e) ↦ rw e (stats_then _ (Runs-pure _ m))
      ]))

  abbrev pub freed : Option ℕ → MmapFile
  freed none = m
  freed (some i) =
      let d = (m.rows r).offsets_and_sizes i in
      record m {
        rows = (set_signature r i invalid_sig m).rows;
        num_removals = fetch_add m.num_removals 1;
        wasted_bytes =
            fetch_add m.wasted_bytes (length (key_at m.file d) + length (val_at m.file d));
      }

  pub Runs-remove_in_row :
      Runs
        (remove_in_row r (parted_hash hash key) key)
        m
        (view_row m.file (m.rows r) key)
        (freed (cell_of m.file (m.rows r) key))
  unfolding remove_in_row view_row
  Runs-remove_in_row = Runs-bind _ (Runs-gets m) (
      Runs-bind _ (Runs-seek b inv key m).1 (elim (Option-cases (cell_of m.file (m.rows r) key)) [
        | inl e ↦ rw e (Runs-pure none m)
        | inr (i, e) ↦ rw e (mmap_then _ (mmap_then _ (mmap_then _ (Runs-pure _ _))))
      ]))

  freed-Writes :
      (i : ℕ) → cell_of m.file (m.rows r) key ≡ some i → Writes hash m (freed (some i)) r key none
  freed-Writes i e =
      let x = Extends-SameData {g = freed (some i)} b (record { offset = refl; file = refl }) in
      let row_is : (freed (some i)).rows r ≡ cleared (m.rows r) i = update_self m.rows r _ in
      record {
        extends = x;
        elsewhere = λ s ne. update_ne m.rows r s _ (λ p. ne (sym p));
        inv = rw row_is (RowInv-Extends x (RowInv-clear inv i));
        view = λ q.
            rw row_is (view_row-clear inv i key (cell_of-IsCellOf m.file (m.rows r) key i e) q);
        frontier = refl;
      }

  -- From the same file, `remove` returns what the row holds under the key; afterwards the key is
  -- gone and every other key reads as before.
  pub Runs-remove-Writes :
      (g : MmapFile) × Runs
        (remove_in_row r (parted_hash hash key) key)
        m
        (view_row m.file (m.rows r) key)
        g
      × Writes hash m g r key none
  Runs-remove-Writes = (
    freed (cell_of m.file (m.rows r) key),
    Runs-remove_in_row,
    elim (Option-cases (cell_of m.file (m.rows r) key)) [
      | inl e ↦ rw e (Writes-same none b inv (view_row-none m.file (m.rows r) key e))
      | inr (i, e) ↦ rw e (freed-Writes i e)
    ],
  )
