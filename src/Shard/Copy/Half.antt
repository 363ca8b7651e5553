-- ===== src/Shard/Copy/Half.antt =====
-- A row that is copied cell by cell: what the target row stands for, when it takes the cells whose
-- keys pass a test.
use candystore.Base.{
  Option, Bool-cases, inl, inr, false, ℕ, ◌+◌, ◌≤◌, ◌<◌, ◌^◌, ◌≡◌, ◌≢◌, refl, sym, ap, ◌∙◌, Bool,
  true, none, some, if◌then◌else◌, arith,
}
use candystore.Base.Bytes.{Bytes, bytes_eq, bytes_eq_iff}
use candystore.Base.Search.{position, position-eq-none}
use candystore.Hashing.{Hasher, parted_hash, signature, invalid_sig, row_width}
use candystore.Shard.Row.{ShardRow, key_len, val_len, file_offset}
use candystore.Shard.Mmap.{MmapFile}
use candystore.Shard.Mmap.Runs.{key_at, val_at}
use candystore.Shard.Mmap.Extends.{IsBacked, Room}
use candystore.Shard.Entry.Model.{
  Used, IsEntry, RowInv, has_key, has_key-false, value_of, cell_of, view_row, cell_of-none,
}
use candystore.Shard.Entry.Place.{placed, placed-Writes}
use candystore.Shard.Entry.Writes.{Writes}
use candystore.Shard.Disk.Laws.{length-bytes_at}
use candystore.Shard.Copy.Prefix.{view_prefix, view_prefix_free, view_prefix-Used, view_row-free}

abbrev pub filtered : (Bytes → Bool) → (Bytes → Option Bytes) → Bytes → Option Bytes
filtered p f q = if p q then f q else none

no_value : {o : Option Bytes} (b : Bool) → o ≡ none → (if b then o else none) ≡ none
no_value true e = e
no_value false e = refl

module _ {hash : Hasher} {src : MmapFile} {r : ℕ} (sb : IsBacked src)
    (inv : RowInv hash src r (src.rows r)) (p : Bytes → Bool) where
  abbrev pub row : ShardRow
  row = src.rows r

  -- of the first `col` cells, those that pass were copied to the first cells of the target row, up
  -- to `target_col`
  pub record Copied (t : MmapFile) (col target_col : ℕ) : Type 0 where
    pub backed : IsBacked t
    pub valid : RowInv hash t r (t.rows r)
    pub free : (j : ℕ) → target_col ≤ j → (t.rows r).signatures j ≡ invalid_sig
    pub view :
        (q : Bytes) → view_row t.file (t.rows r) q ≡ filtered p (view_prefix src.file row col) q
    pub behind : target_col ≤ col

  module _ {t : MmapFile} {col target_col : ℕ} (c : Copied t col target_col) (lt : col < row_width)
      (used : Used row col) (fits : t.write_offset < 2 ^ 32) where
    unfoldable pub key : Bytes
    key = key_at src.file (row.offsets_and_sizes col)

    unfoldable pub val : Bytes
    val = val_at src.file (row.offsets_and_sizes col)

    entry : IsEntry hash src r (row.signatures col) (row.offsets_and_sizes col)
    entry = inv.cells col lt used

    unfoldable pub after : MmapFile
    after = placed t r target_col (signature (parted_hash hash key)) key val

    pub room : Room t key val
    unfolding key val
    room = record {
      key_fits = rw (length-bytes_at src.file.byte _ _) (omega (arith, entry.word));
      val_fits = rw (length-bytes_at src.file.byte _ _) (omega arith);
      offset_fits = fits;
    }

    pub free_here : (t.rows r).signatures target_col ≡ invalid_sig
    free_here = c.free target_col (omega arith)

    fresh : (j : ℕ) → j < col → Used row j → key_at src.file (row.offsets_and_sizes j) ≢ key
    unfolding key
    fresh j below u e = omega (arith, inv.unique j col (omega arith) lt u used e)

    absent : cell_of t.file (t.rows r) key ≡ none
    absent = cell_of-none t.file (t.rows r) key (c.view key ∙ no_value (p key) new_key)
      where
        new_key : view_prefix src.file row col key ≡ none
        new_key = ap (value_of src.file row) (
            position-eq-none (has_key src.file row key) col 0 (λ j lo hi.
              has_key-false src.file row key j (λ v e. fresh j (omega arith) v (sym e))))

    pub after-Writes : Writes hash t after r key (some val)
    unfolding after key
    after-Writes =
        placed-Writes c.backed room entry.home c.valid absent target_col (omega (arith, c.behind))
          free_here

    pub after_offset :
        after.write_offset
        ≡ t.write_offset
          + (key_len (row.offsets_and_sizes col) + val_len (row.offsets_and_sizes col))
    unfolding after key val
    after_offset =
        let k =
          length-bytes_at src.file.byte (key_len (row.offsets_and_sizes col))
            (file_offset (row.offsets_and_sizes col)) in
        let v =
          length-bytes_at src.file.byte (val_len (row.offsets_and_sizes col))
            (file_offset (row.offsets_and_sizes col) + key_len (row.offsets_and_sizes col)) in
        rw (k, v) (omega (arith, entry.word))

    after_free : (j : ℕ) → target_col + 1 ≤ j → (after.rows r).signatures j ≡ invalid_sig
    unfolding after
    after_free j le = ground (arith, c.free j)

    next_prefix :
        (q : Bytes)
        → view_prefix src.file row (col + 1) q
          ≡ (if bytes_eq q key then some val else view_prefix src.file row col q)
    unfolding key val
    next_prefix q = view_prefix-Used src.file row col used fresh q

    after_view :
        p key ≡ true
        → (q : Bytes)
        → (if bytes_eq q key then some val else filtered p (view_prefix src.file row col) q)
          ≡ filtered p (view_prefix src.file row (col + 1)) q
    after_view pass q = elim (Bool-cases (bytes_eq q key)) [
      | inl e ↦ rw (next_prefix q, e, ap p ((bytes_eq_iff q key).0 e) ∙ pass) refl
      | inr e ↦ rw (next_prefix q, e) refl
    ]

    -- the cell's key passes: its entry was placed
    pub after-Copied : p key ≡ true → Copied after (col + 1) (target_col + 1)
    after-Copied pass = record {
      backed = after-Writes.extends.backed;
      valid = after-Writes.inv;
      free = after_free;
      view = λ q.
          after-Writes.view q
          ∙ ap (λ o. if bytes_eq q key then some val else o) (c.view q)
          ∙ after_view pass q;
      behind = omega (arith, c.behind);
    }

    -- the cell's key does not pass
    pub skip-Copied : p key ≡ false → Copied t (col + 1) target_col
    skip-Copied miss = record {
      backed = c.backed;
      valid = c.valid;
      free = c.free;
      view = λ q. c.view q ∙ skipped q;
      behind = omega (arith, c.behind);
    }
      where
        skipped :
            (q : Bytes)
            → filtered p (view_prefix src.file row col) q
              ≡ filtered p (view_prefix src.file row (col + 1)) q
        skipped q = elim (Bool-cases (bytes_eq q key)) [
          | inl e ↦ rw (ap p ((bytes_eq_iff q key).0 e) ∙ miss) refl
          | inr e ↦ rw (next_prefix q, e) refl
        ]

  -- the cell is free
  pub free-Copied :
      {t : MmapFile} {col target_col : ℕ}
      → Copied t col target_col
      → row.signatures col ≡ invalid_sig
      → Copied t (col + 1) target_col
  free-Copied {col = col} c free = record {
    backed = c.backed;
    valid = c.valid;
    free = c.free;
    view = λ q.
        c.view q
        ∙ ap (λ o. if p q then o else none) (sym (view_prefix_free src.file row col free q));
    behind = omega (arith, c.behind);
  }

  -- nothing was copied yet, to a row that is free
  pub start-Copied :
      (t : MmapFile) → IsBacked t → ((j : ℕ) → (t.rows r).signatures j ≡ invalid_sig) → Copied t 0 0
  unfolding position
  start-Copied t b free = record {
    backed = b;
    valid = record {
      cells = λ i lt u. absurd (u (free i));
      unique = λ i j li lj ui uj e. absurd (ui (free i));
    };
    free = λ j le. free j;
    view = λ q. view_row-free t.file (t.rows r) q free ∙ sym (no_value (p q) refl);
    behind = omega arith;
  }
