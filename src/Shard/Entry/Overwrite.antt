-- ===== src/Shard/Entry/Overwrite.antt =====
-- A key that is there: what each mode of insertion does with its entry.
use candystore.Base.{
  ℕ, ◌+◌, ◌≡◌, refl, sym, ap, subst, ◌∙◌, false, none, some, inl, inr, Bool-cases, arith,
}
use candystore.Base.Bytes.{Bytes, bytes_eq, bytes_eq_iff, length}
use candystore.Base.Outcome.{pure}
use candystore.Hashing.{Hasher, PartedHash, parted_hash, signature, row_selector}
use candystore.Stats.{fetch_add}
use candystore.Shard.Mmap.{MmapFile, Io, set_offset}
use candystore.Shard.Mmap.Runs.{Runs, Runs-pure, Runs-bind, mmap_then, stats_then, key_at, val_at}
use candystore.Shard.Mmap.Extends.{IsBacked, Room, appended, new_offset, Runs-write_kv}
use candystore.Shard.Entry.Model.{RowInv, cell_of, view_row, IsCellOf, cell_of-IsCellOf}
use candystore.Shard.Entry.Writes.{Writes, Writes-same, Points, points-Writes}
use candystore.Shard.Entry.Spec.{spec_status, spec_value}
use candystore.Shard.Entry.{
  InsertStatus, InsertMode, set, replace, get_or_create, TryReplaceStatus, was_replaced,
  not_replaced, Hit, overwrite, replace_hit, settle,
}

abbrev overwritten : MmapFile → ℕ → Hit → Bytes → Bytes → MmapFile
overwritten m r h key val =
    let a = set_offset r h.idx (new_offset m key val) (appended m key val) in
    record a { wasted_bytes = fetch_add a.wasted_bytes (length h.key + length h.val) }

Runs-overwritten :
    (m : MmapFile) (r : ℕ) (h : Hit) (key val : Bytes)
    → bytes_eq val h.val ≡ false
    → Runs (overwrite r h key val) m (was_replaced h.val) (overwritten m r h key val)
unfolding overwrite
Runs-overwritten m r h key val e = rw e (
    Runs-bind _ (Runs-write_kv key val m)
      (mmap_then _ (mmap_then _ (stats_then _ (Runs-pure _ _)))))

overwritten-Points :
    (m : MmapFile) (r : ℕ) (h : Hit) (key val : Bytes)
    → Points m (overwritten m r h key val) r h.idx key val ((m.rows r).signatures h.idx)
overwritten-Points m r h key val = record {
  data_of = record { offset = refl; file = refl };
  elsewhere = λ s ne. ground arith;
  others = λ j ne. (ground arith, ground arith);
  offset = ground arith;
  signed = ground arith;
  frontier = refl;
}

module _ {hash : Hasher} {m : MmapFile} {r : ℕ} {key val : Bytes} (b : IsBacked m)
    (room : Room m key val) (home : row_selector (parted_hash hash key) ≡ r)
    (inv : RowInv hash m r (m.rows r)) (i : ℕ) (at_i : cell_of m.file (m.rows r) key ≡ some i) where
  abbrev hit : Hit
  hit = record {
    idx = i;
    key = key_at m.file ((m.rows r).offsets_and_sizes i);
    val = val_at m.file ((m.rows r).offsets_and_sizes i);
  }

  c : IsCellOf m.file (m.rows r) key i
  c = cell_of-IsCellOf m.file (m.rows r) key i at_i

  view_there : view_row m.file (m.rows r) key ≡ some hit.val
  unfolding view_row
  view_there = rw at_i

  sig_there : (m.rows r).signatures i ≡ signature (parted_hash hash key)
  sig_there =
      sym (inv.cells i c.below c.used).signed
      ∙ ap (λ k. signature (parted_hash hash k)) (sym c.keyed)

  overwritten-Writes : Writes hash m (overwritten m r hit key val) r key (some val)
  overwritten-Writes =
      points-Writes
        (subst (Points m (overwritten m r hit key val) r i key val) sig_there
          (overwritten-Points m r hit key val))
        b room home inv c.below
        (λ j lt ne u e. ne (inv.unique j i lt c.below u c.used (e ∙ c.keyed))) (λ u. sym c.keyed)

  -- An overwrite returns the old value, and leaves the new one under the key, also where the two
  -- are equal and nothing is written.
  Runs-overwrite :
      (g : MmapFile) × Runs (overwrite r hit key val) m (was_replaced hit.val) g
      × Writes hash m g r key (some val)
  unfolding overwrite
  Runs-overwrite = elim (Bool-cases (bytes_eq val hit.val)) [
    | inl same ↦ (
      m,
      rw same (Runs-pure _ m),
      Writes-same (some val) b inv (view_there ∙ ap some (sym ((bytes_eq_iff _ _).0 same))),
    )
    | inr differ ↦
        (overwritten m r hit key val, Runs-overwritten m r hit key val differ, overwritten-Writes)
  ]

  -- the entry of the key was met: the outcome of `try_replace`, and what it means for the caller
  pub record Replaces (mode : InsertMode) (ph : PartedHash) : Type 0 where
    pub left : MmapFile
    pub status : TryReplaceStatus
    pub runs : Runs (replace_hit r hit key val mode) m status left
    pub settled :
        settle r ph key val mode status
        ≡ pure {S = Io} (spec_status mode (view_row m.file (m.rows r) key))
    pub writes : Writes hash m left r key (spec_value mode val (view_row m.file (m.rows r) key))

  written :
      (mode : InsertMode) (ph : PartedHash)
      → replace_hit r hit key val mode ≡ overwrite r hit key val
      → spec_status mode (some hit.val) ≡ InsertStatus.replaced hit.val
      → spec_value mode val (some hit.val) ≡ some val
      → Replaces mode ph
  written mode ph same status value =
      let (g, runs, writes) = Runs-overwrite in
      record {
        left = g;
        status = was_replaced hit.val;
        runs = rw same runs;
        settled = rw (view_there, status);
        writes = rw (view_there, value) writes;
      }

  kept :
      (mode : InsertMode) (ph : PartedHash)
      → Runs (replace_hit r hit key val mode) m (not_replaced hit.val) m
      → spec_status mode (some hit.val) ≡ InsertStatus.already_exists hit.val
      → spec_value mode val (some hit.val) ≡ some hit.val
      → Replaces mode ph
  kept mode ph runs status value = record {
    left = m;
    status = not_replaced hit.val;
    runs = runs;
    settled = rw (view_there, status);
    writes = rw (view_there, value) (Writes-same (some hit.val) b inv view_there);
  }

  -- Each mode does what the specification says with a key that is there.
  pub replaces : (mode : InsertMode) (ph : PartedHash) → Replaces mode ph
  replaces set ph = written set ph refl refl refl
  replaces (replace none) ph = written (replace none) ph refl refl refl
  replaces (replace (some e)) ph = elim (Bool-cases (bytes_eq e hit.val)) [
    | inl t ↦ written (replace (some e)) ph (rw t) (rw t) (rw t)
    | inr f ↦ kept (replace (some e)) ph (rw f (Runs-pure _ m)) (rw f) (rw f)
  ]
  replaces get_or_create ph = kept get_or_create ph (stats_then _ (Runs-pure _ m)) refl refl
