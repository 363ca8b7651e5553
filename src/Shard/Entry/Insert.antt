-- ===== src/Shard/Entry/Insert.antt =====
-- Insertion into a row, in every mode, against the specification.
use candystore.Base.{ℕ, ◌+◌, ◌≡◌, Bool, Option, none, some, inl, inr, Option-cases}
use candystore.Base.Bytes.{Bytes, length}
use candystore.Hashing.{Hasher, PartedHash, parted_hash, signature, row_selector, invalid_sig}
use candystore.Shard.Row.{lookup}
use candystore.Shard.Mmap.{InternalConfig, MmapFile}
use candystore.Shard.Mmap.Runs.{Runs, Runs-pure, Runs-bind, Runs-gets, stats_then, val_at}
use candystore.Shard.Mmap.Extends.{IsBacked, Room}
use candystore.Shard.Entry.Model.{RowInv, cell_of, view_row}
use candystore.Shard.Entry.Seek.{Runs-seek}
use candystore.Shard.Entry.Writes.{Writes, Writes-same}
use candystore.Shard.Entry.Spec.{row_status, row_value, row-some, row-get_or_create, row-replace}
use candystore.Shard.Entry.{
  InsertMode, set, replace, get_or_create, try_replace, add_entry_in, insert_in_row,
  TryReplaceStatus, missing, settle, admit, go_on, refuse, split_needed,
}
use candystore.Shard.Entry.Place.{
  placed, Runs-place, is_full, is_full-none, is_full-some, free_cell, view_row-none, placed-Writes,
}
use candystore.Shard.Entry.Overwrite.{replaces}

module _ {hash : Hasher} {m : MmapFile} {r : ℕ} {key val : Bytes} (b : IsBacked m)
    (room : Room m key val) (home : row_selector (parted_hash hash key) ≡ r)
    (inv : RowInv hash m r (m.rows r)) where
  abbrev old : Option Bytes
  old = view_row m.file (m.rows r) key

  module _ (absent : cell_of m.file (m.rows r) key ≡ none) where
    old-none : old ≡ none
    old-none = view_row-none m.file (m.rows r) key absent

    -- A new key goes to a free cell; a full row asks for a split and is left alone.
    Runs-add_entry_in :
        (coll : Bool)
        → (g : MmapFile) × Runs
            (add_entry_in r (parted_hash hash key) key val coll)
            m
            (row_status (is_full (m.rows r)) set none)
            g
          × Writes hash m g r key (row_value (is_full (m.rows r)) set val none)
    unfolding add_entry_in
    Runs-add_entry_in coll = elim (Option-cases (lookup (m.rows r) invalid_sig 0)) [
      | inl e ↦ (
        m,
        Runs-bind _ (Runs-gets m) (rw (e, is_full-none (m.rows r) e) (Runs-pure _ m)),
        rw (is_full-none (m.rows r) e) (Writes-same none b inv old-none),
      )
      | inr (i, e) ↦ (
        placed m r i (signature (parted_hash hash key)) key val,
        Runs-bind _ (Runs-gets m) (
            rw (e, is_full-some (m.rows r) i e)
              (Runs-bind _ (Runs-place r i _ key val m) (stats_then _ (Runs-pure _ _)))),
        rw (is_full-some (m.rows r) i e) (
            let (lt, free) = free_cell (m.rows r) i e in
            placed-Writes b room home inv absent i lt free),
      )
    ]

  -- what `try_replace` and what follows it return, and the file that is left
  record Settles (mode : InsertMode) : Type 0 where
    status : TryReplaceStatus
    mid : MmapFile
    left : MmapFile
    tries : Runs (try_replace r (parted_hash hash key) key val mode) m status mid
    settles :
        Runs
          (settle r (parted_hash hash key) key val mode status)
          mid
          (row_status (is_full (m.rows r)) mode old)
          left
    writes : Writes hash m left r key (row_value (is_full (m.rows r)) mode val old)

  coll : Bool
  coll = (Runs-seek b inv key m).0

  Settles-absent : (mode : InsertMode) → cell_of m.file (m.rows r) key ≡ none → Settles mode
  unfolding try_replace coll
  Settles-absent mode e = record {
    status = missing coll;
    mid = m;
    left = (outcome mode).0;
    tries =
        Runs-bind _ (Runs-gets m) (Runs-bind _ (Runs-seek b inv key m).1 (rw e (Runs-pure _ m)));
    settles = (outcome mode).1;
    writes = (outcome mode).2;
  }
    where
      outcome :
          (mode' : InsertMode)
          → (g : MmapFile) × Runs
              (settle r (parted_hash hash key) key val mode' (missing coll))
              m
              (row_status (is_full (m.rows r)) mode' old)
              g
            × Writes hash m g r key (row_value (is_full (m.rows r)) mode' val old)
      outcome set = rw (old-none e) (Runs-add_entry_in e coll)
      outcome get_or_create =
          let same = row-get_or_create (is_full (m.rows r)) val in
          rw (old-none e, same.0, same.1) (Runs-add_entry_in e coll)
      outcome (replace x) =
          let same = row-replace (is_full (m.rows r)) val x in
          (
            m,
            rw (old-none e, same.0) (Runs-pure _ m),
            rw (old-none e, same.1) (Writes-same none b inv (old-none e)),
          )

  old-some :
      (i : ℕ)
      → cell_of m.file (m.rows r) key ≡ some i
      → old ≡ some (val_at m.file ((m.rows r).offsets_and_sizes i))
  unfolding view_row
  old-some i e = rw e

  Settles-present :
      (mode : InsertMode) (i : ℕ) → cell_of m.file (m.rows r) key ≡ some i → Settles mode
  unfolding try_replace
  Settles-present mode i e =
      let o = replaces b room home inv i e mode (parted_hash hash key) in
      let same =
        row-some (is_full (m.rows r)) val mode (val_at m.file ((m.rows r).offsets_and_sizes i)) in
      record {
        status = o.status;
        mid = o.left;
        left = o.left;
        tries = Runs-bind _ (Runs-gets m) (Runs-bind _ (Runs-seek b inv key m).1 (rw e o.runs));
        settles = rw (o.settled, old-some i e, same.0) (Runs-pure _ o.left);
        writes = rw (old-some i e, same.1) (rw (old-some i e) at o.writes);
      }

  Settles-any : (mode : InsertMode) → Settles mode
  Settles-any mode = elim (Option-cases (cell_of m.file (m.rows r) key)) [
    | inl e ↦ Settles-absent mode e
    | inr (i, e) ↦ Settles-present mode i e
  ]

  -- what an insertion into the row returns, and the file that it leaves
  pub record Inserts (config : InternalConfig) (compacting : Bool) (mode : InsertMode)
      (should : Option ℕ) : Type 0 where
    pub left : MmapFile
    pub runs :
        Runs
          (insert_in_row config compacting r (parted_hash hash key) key val mode)
          m
          (row_status (is_full (m.rows r)) mode old, should)
          left
    pub writes : Writes hash m left r key (row_value (is_full (m.rows r)) mode val old)

  -- An insertion that is admitted returns the status of its mode, and leaves the value of its mode
  -- under the key and every other key as it was; in a full row a new key is refused.
  pub Runs-insert_in_row :
      (config : InternalConfig) (compacting : Bool) (mode : InsertMode) (should : Option ℕ)
      → admit config compacting m (length key + length val) ≡ go_on should
      → Inserts config compacting mode should
  unfolding insert_in_row
  Runs-insert_in_row config compacting mode should e =
      let o = Settles-any mode in
      record {
        left = o.left;
        runs =
            Runs-bind _ (Runs-gets m)
              (rw e (Runs-bind _ o.tries (Runs-bind _ o.settles (Runs-pure _ o.left))));
        writes = o.writes;
      }

-- An insertion that is refused asks for a split and leaves the file alone.
pub Runs-insert_refused :
    {m : MmapFile} (r : ℕ) (ph : PartedHash) (key val : Bytes) (config : InternalConfig)
    (compacting : Bool) (mode : InsertMode)
    → admit config compacting m (length key + length val) ≡ refuse
    → Runs (insert_in_row config compacting r ph key val mode) m (split_needed, none) m
unfolding insert_in_row
Runs-insert_refused {m} r ph key val config compacting mode e =
    Runs-bind _ (Runs-gets m) (rw e (Runs-pure _ m))
