-- ===== src/Shard/Entry/Seek.antt =====
-- The search by signature finds what a search by the key alone would find.
use candystore.Base.{
  ℕ, zero, suc, ◌+◌, ◌-◌, ◌≤◌, ◌<◌, ◌≡◌, sym, ap, subst, ◌∙◌, Bool, true, false, Option, none, some,
  ◌==◌, inl, inr, Bool-cases, Option-cases, arith, ==_iff,
}
use candystore.Base.Bytes.{Bytes, bytes_eq, bytes_eq_iff}
use candystore.Base.Search.{
  position, IsFirst, NoneIn, position-IsFirst, position-NoneIn, position-eq-some, position-eq-none,
  position_skip,
}
use candystore.Hashing.{Hasher, parted_hash, signature, row_width}
use candystore.Hashing.Laws.{signature-parted_hash}
use candystore.Shard.Disk.{File}
use candystore.Shard.Row.{ShardRow, lookup}
use candystore.Shard.Mmap.{MmapFile}
use candystore.Shard.Mmap.Runs.{Runs, Runs-pure, Runs-bind, Runs-read_kv, key_at, val_at}
use candystore.Shard.Mmap.Extends.{IsBacked}
use candystore.Shard.Entry.Model.{
  Used, RowInv, has_key, cell_of, has_key-true, has_key-intro, has_key-false,
}
use candystore.Shard.Entry.{Hit, seek, seek_fuel}
use candystore.Shard.Row.{key_len, val_len, file_offset}
use mathlib.Core.Bool.{false≢true}
use native.Mathlib.Decide.{ℕ_discrete}

abbrev pub hit_of : File → ShardRow → Option ℕ → Option Hit
hit_of f row none = none
hit_of f row (some i) = some (record {
  idx = i;
  key = key_at f (row.offsets_and_sizes i);
  val = val_at f (row.offsets_and_sizes i);
})

module _ {hash : Hasher} {m : MmapFile} {r : ℕ} {row : ShardRow} (b : IsBacked m)
    (inv : RowInv hash m r row) (key : Bytes) where
  sig : ℕ
  sig = signature (parted_hash hash key)

  -- a cell that has the key has its signature
  signed : (i : ℕ) → i < row_width → has_key m.file row key i ≡ true → row.signatures i ≡ sig
  unfolding sig
  signed i lt h =
      let (used, keyed) = has_key-true m.file row key i h in
      sym (inv.cells i lt used).signed ∙ ap (λ k. signature (parted_hash hash k)) (sym keyed)

  unsigned :
      (i : ℕ) → i < row_width → (row.signatures i == sig) ≡ false → has_key m.file row key i ≡ false
  unsigned i lt h = elim (Bool-cases (has_key m.file row key i)) [
    | inr e ↦ e
    | inl e ↦ absurd (false≢true (sym h ∙ (==_iff _ _).1 (signed i lt e)))
  ]

  Used-sig : (i : ℕ) → (row.signatures i == sig) ≡ true → Used row i
  unfolding sig
  Used-sig i h e = signature-parted_hash hash key (sym ((==_iff _ _).0 h) ∙ e)

  abbrev target : ℕ → Option ℕ
  target start = position (has_key m.file row key) (row_width - start) start

  module _ (start : ℕ) (le : start ≤ row_width) where
    target-none : lookup row sig start ≡ none → target start ≡ none
    unfolding lookup
    target-none e = position-eq-none (has_key m.file row key) (row_width - start) start (λ j lo hi.
        unsigned j (omega arith)
          (position-NoneIn (λ i. row.signatures i == sig) (row_width - start) start e j lo hi))

    module _ (idx : ℕ) (e : lookup row sig start ≡ some idx) where
      first : IsFirst (λ i. row.signatures i == sig) (row_width - start) start idx
      unfolding lookup
      first = position-IsFirst (λ i. row.signatures i == sig) (row_width - start) start idx e

      before : NoneIn (has_key m.file row key) start idx
      before j lo hi = unsigned j (omega (arith, first.below)) (first.before j lo hi)

      in_row : idx < row_width
      in_row = omega (arith, first.below)

      found-Used : Used row idx
      found-Used = Used-sig idx first.holds

      target-found :
          bytes_eq key (key_at m.file (row.offsets_and_sizes idx)) ≡ true → target start ≡ some idx
      target-found t =
          position-eq-some (has_key m.file row key) (row_width - start) start idx (record {
            from = first.from;
            below = first.below;
            holds = has_key-intro m.file row key idx found-Used ((bytes_eq_iff _ _).0 t);
            before = before;
          })

      target-next :
          bytes_eq key (key_at m.file (row.offsets_and_sizes idx)) ≡ false
          → target start ≡ target (idx + 1)
      target-next t =
          let size : start + (row_width - start) - (idx + 1) ≡ row_width - (idx + 1) =
            omega arith in
          subst (λ n. target start ≡ position (has_key m.file row key) n (idx + 1)) size
            (position_skip (has_key m.file row key) (row_width - start) start (idx + 1)
              (omega (arith, first.from)) (omega (arith, first.below)) past)
        where
          past : NoneIn (has_key m.file row key) start (idx + 1)
          past j lo hi = elim (ℕ_discrete j idx) [
            | no ne ↦ before j lo (omega arith)
            | yes at_idx ↦ rw at_idx (
                has_key-false m.file row key idx
                  (λ u p. false≢true (sym t ∙ (bytes_eq_iff _ _).1 p)))
          ]

      readable :
          file_offset (row.offsets_and_sizes idx)
            + (key_len (row.offsets_and_sizes idx) + val_len (row.offsets_and_sizes idx))
          ≤ m.file.len
      readable = omega (arith, (inv.cells idx in_row found-Used).fits)

  -- With more fuel than cells left, the search returns the cell that has the key, and leaves the
  -- file alone.
  Runs-seek_from :
      (fuel start : ℕ) (coll : Bool) (f : MmapFile)
      → start ≤ row_width
      → row_width - start < fuel
      → (c : Bool) × Runs
          (seek fuel m row sig key start coll)
          f
          (hit_of m.file row (target start), c)
          f
  unfolding seek
  Runs-seek_from zero start coll f le lt = absurd (omega arith)
  Runs-seek_from (suc fuel) start coll f le lt = elim (Option-cases (lookup row sig start)) [
    | inl e ↦ (coll, rw (e, seek, target-none start le e) (Runs-pure (none, coll) f))
    | inr (idx, e) ↦
        let read = Runs-read_kv m.file (row.offsets_and_sizes idx) f (readable start le idx e) in
        elim (Bool-cases (bytes_eq key (key_at m.file (row.offsets_and_sizes idx)))) [
          | inl t ↦ (
            coll,
            rw (e, seek, target-found start le idx e t) (Runs-bind _ read (rw t (Runs-pure _ f))),
          )
          | inr t ↦
              let (c, rest) =
                Runs-seek_from fuel (idx + 1) true f (omega (arith, in_row start le idx e))
                  (omega (arith, (first start le idx e).from, in_row start le idx e)) in
              (c, rw (e, seek, target-next start le idx e t) (Runs-bind _ read (rw t rest)))
        ]
  ]

  pub Runs-seek :
      (f : MmapFile)
      → (c : Bool) × Runs
          (seek seek_fuel m row (signature (parted_hash hash key)) key 0 false)
          f
          (hit_of m.file row (cell_of m.file row key), c)
          f
  unfolding cell_of sig
  Runs-seek f = Runs-seek_from seek_fuel 0 false f (omega arith) (omega arith)
