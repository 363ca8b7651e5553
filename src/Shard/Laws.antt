-- ===== src/Shard/Laws.antt =====
-- `get`, `remove` and `insert` of a shard, against the map that it stands for, also while a
-- compaction is under way.
use candystore.Base.{ℕ, ◌+◌, ◌<◌, ◌≡◌, refl, subst, ◌∙◌, Bool, Option, none, if◌then◌else◌}
use candystore.Base.Bytes.{Bytes, bytes_eq, length}
use candystore.Hashing.{Hasher, parted_hash, row_selector, num_rows}
use candystore.Hashing.Laws.{row_selector-lt}
use candystore.Shard.Mmap.{InternalConfig, MmapFile}
use candystore.Shard.Mmap.Extends.{Room}
use candystore.Shard.Entry.{InsertMode, admit, go_on, refuse, split_needed}
use candystore.Shard.Entry.Model.{RowInv}
use candystore.Shard.Entry.Place.{is_full}
use candystore.Shard.Entry.Spec.{row_status, row_value}
use candystore.Shard.Entry.Reads.{Runs-get_in_row, Runs-remove-Writes}
use candystore.Shard.Entry.Insert.{Runs-insert_in_row, Runs-insert_refused}
use candystore.Shard.Entry.Writes.{Writes}
use candystore.Shard.Acts.{Acts, Acts-operate, Acts-bind, Acts-pure, Acts-gets, set_active-same}
use candystore.Shard.Model.{view, ShardInv, active-IsBacked, set_active-ShardInv, view-set_active}
use candystore.Shard.Compaction.{started_if, Healthy, Healthy-set_active, begins}
use candystore.Shard.{Shard, active, set_active, get, remove, insert, is_some}

-- the map `sh'` is the map `sh` with the value `v`, or nothing, under `key`, and `sh'` is valid
pub record Updates (hash : Hasher) (sh sh' : Shard) (key : Bytes) (v : Option Bytes) : Type 0 where
  pub inv : ShardInv hash sh'
  pub view : (q : Bytes) → view hash sh' q ≡ (if bytes_eq q key then v else view hash sh q)

abbrev pub row_of : Hasher → Bytes → ℕ
row_of hash key = row_selector (parted_hash hash key)

module _ {hash : Hasher} {sh : Shard} (v : ShardInv hash sh) (key : Bytes) where
  lt : row_of hash key < num_rows
  lt = row_selector-lt (parted_hash hash key)

  row_inv :
      RowInv hash
        (active sh (row_of hash key))
        (row_of hash key)
        ((active sh (row_of hash key)).rows (row_of hash key))
  row_inv = v.rows (row_of hash key) lt

  -- From a valid shard, also while it is compacted, `get` returns the value under the key, without
  -- an error, and leaves the shard alone.
  pub Acts-get : Acts (get (parted_hash hash key) key) sh (view hash sh key) sh
  unfolding get view
  Acts-get =
      subst (Acts (get (parted_hash hash key) key) sh (view hash sh key))
        (set_active-same sh (row_of hash key))
        (Acts-operate (row_of hash key)
          (Runs-get_in_row (active-IsBacked v (row_of hash key)) row_inv key))

  updates :
      {g : MmapFile} {o : Option Bytes}
      → Writes hash (active sh (row_of hash key)) g (row_of hash key) key o
      → Updates hash sh (set_active sh (row_of hash key) g) key o
  updates w = record { inv = set_active-ShardInv v lt w; view = view-set_active v lt w refl }

  -- From a valid shard, also while it is compacted, `remove` returns the value under the key,
  -- without an error; afterwards the shard is valid, the key is gone and every other key reads as
  -- before.
  pub Acts-remove :
      (sh' : Shard) × Acts (remove (parted_hash hash key) key) sh (view hash sh key) sh'
      × Updates hash sh sh' key none
  unfolding remove view
  Acts-remove =
      let (g, runs, w) = Runs-remove-Writes (active-IsBacked v (row_of hash key)) row_inv key in
      (set_active sh (row_of hash key) g, Acts-operate (row_of hash key) runs, updates w)

  abbrev file : MmapFile
  file = active sh (row_of hash key)

  abbrev full : Bool
  full = is_full (file.rows (row_of hash key))

  -- From a valid shard whose compaction, if there is one, has not failed, an insertion that is
  -- admitted, of an entry whose lengths fit 16 bits at an offset that fits 32 bits, returns the
  -- status of its mode, without an error, and leaves a valid shard with the value of its mode under
  -- the key and every other key as it was; if the row is full and lacks the key, it asks for a split
  -- and the key stays without a value. Only the file of the row is changed, and then a compaction is
  -- started, if there is none and the file has the length from which on one is due.
  pub Acts-insert :
      (config : InternalConfig) (val : Bytes) (mode : InsertMode) (should : Option ℕ)
      → Healthy sh.handle sh.target
      → Room file key val
      → admit config (is_some sh.target) file (length key + length val) ≡ go_on should
      → (sh' : Shard) × Acts
          (insert config (parted_hash hash key) key val mode)
          sh
          (row_status full mode (view hash sh key))
          sh'
        × Updates hash sh sh' key (row_value full mode val (view hash sh key))
        × Healthy sh'.handle sh'.target
        × (g : MmapFile) × (sh' ≡ started_if config should (set_active sh (row_of hash key) g))
  unfolding insert view
  Acts-insert config val mode should h room e =
      let r = row_of hash key in
      let o =
        Runs-insert_in_row (active-IsBacked v r) room refl row_inv config (is_some sh.target) mode
          should e in
      let u = updates o.writes in
      let b = begins u.inv config should (Healthy-set_active sh r o.left h) in
      (
        b.left,
        Acts-bind _ (Acts-gets sh)
            (Acts-bind _ (Acts-operate r o.runs) (Acts-bind _ b.acts (Acts-pure _ b.left))),
        record { inv = b.keeps.inv; view = λ q. b.keeps.view q ∙ u.view q },
        b.healthy,
        _,
        b.due,
      )

  pub acts_refused :
      (config : InternalConfig) (val : Bytes) (mode : InsertMode)
      → admit config (is_some sh.target) file (length key + length val) ≡ refuse
      → Acts (insert config (parted_hash hash key) key val mode) sh split_needed sh
  unfolding insert
  acts_refused config val mode e =
      let r = row_of hash key in
      Acts-bind _ (Acts-gets sh) (
        Acts-bind _
          (subst (Acts _ sh (split_needed, none)) (set_active-same sh r) (
            Acts-operate r (
              Runs-insert_refused r (parted_hash hash key) key val config (is_some sh.target) mode
                e)))
          (Acts-bind _ (Acts-pure tt sh) (Acts-pure split_needed sh)))
