-- ===== src/Shard/Entry/Clear.antt =====
-- Freeing one cell of a row, as the removal of a key from the map that the row stands for.
use candystore.Base.{
  ℕ, ◌<◌, ◌≡◌, ◌≢◌, refl, sym, ap, ◌∙◌, false, Option, none, some, if◌then◌else◌, update,
  update_self, update_ne, inl, inr, Bool-cases, arith,
}
use candystore.Base.Bytes.{Bytes, bytes_eq, bytes_eq_iff, bytes_eq_self}
use candystore.Base.Search.{position_congr, position-eq-none}
use candystore.Hashing.{Hasher, invalid_sig, row_width}
use candystore.Shard.Disk.{File}
use candystore.Shard.Row.{ShardRow}
use candystore.Shard.Mmap.{MmapFile}
use candystore.Shard.Entry.Model.{
  Used, RowInv, has_key, value_of, cell_of, view_row, has_key-false, IsCellOf,
}
use mathlib.Core.Bool.{false≢true}
use native.Mathlib.Decide.{ℕ_discrete}

-- the signature of the cell of a key was cleared
abbrev pub cleared : ShardRow → ℕ → ShardRow
cleared row i = record row { signatures = update row.signatures i invalid_sig }

value_of-cleared :
    (f : File) (row : ShardRow) (i : ℕ) (o : Option ℕ)
    → value_of f (cleared row i) o ≡ value_of f row o
value_of-cleared f row i none = refl
value_of-cleared f row i (some j) = refl

module _ {hash : Hasher} {m : MmapFile} {r : ℕ} {row : ShardRow} (inv : RowInv hash m r row)
    (i : ℕ) where
  cleared_before : (j : ℕ) → Used (cleared row i) j → Used row j × (j ≢ i)
  cleared_before j u =
      (λ p. u (update_ne row.signatures i j invalid_sig (λ e. moved (sym e)) ∙ p), moved)
    where
      moved : j ≢ i
      moved e = u (rw e (update_self row.signatures i invalid_sig))

  pub RowInv-clear : RowInv hash m r (cleared row i)
  RowInv-clear = record {
    cells = λ j lt u.
        rw (update_ne row.signatures i j invalid_sig (λ e. (cleared_before j u).1 (sym e)))
          (inv.cells j lt (cleared_before j u).0);
    unique =
        λ a b la lb ua ub p. inv.unique a b la lb (cleared_before a ua).0 (cleared_before b ub).0 p;
  }

  module _ (k : Bytes) (c : IsCellOf m.file row k i) where
    elsewhere : (j : ℕ) → j < row_width → j ≢ i → has_key m.file row k j ≡ false
    elsewhere j lt ne =
        has_key-false m.file row k j
          (λ u p. ne (inv.unique j i lt c.below u c.used (sym p ∙ c.keyed)))

    gone : (q : Bytes) → false ≡ (if bytes_eq q k then false else has_key m.file row q i)
    gone q = elim (Bool-cases (bytes_eq q k)) [
      | inl e ↦ rw e
      | inr e ↦ rw e (
          sym (
            has_key-false m.file row q i
              (λ u p. false≢true (sym e ∙ (bytes_eq_iff q k).1 (p ∙ sym c.keyed)))))
    ]

    has_key_clear :
        (q : Bytes) (j : ℕ)
        → j < row_width
        → has_key m.file (cleared row i) q j
          ≡ (if bytes_eq q k then false else has_key m.file row q j)
    has_key_clear q j lt = elim (ℕ_discrete j i) [
      | yes at_i ↦ rw at_i (rw (update_self row.signatures i invalid_sig) (gone q))
      | no ne ↦
          rw (update_ne row.signatures i j invalid_sig (λ e. ne (sym e)))
            (elim (Bool-cases (bytes_eq q k)) [
              | inl e ↦ rw (e, (bytes_eq_iff q k).0 e) (elsewhere j lt ne)
              | inr e ↦ rw e
            ])
    ]

    cell_of-clear_ne :
        (q : Bytes) → bytes_eq q k ≡ false → cell_of m.file (cleared row i) q ≡ cell_of m.file row q
    unfolding cell_of
    cell_of-clear_ne q e =
        position_congr (has_key m.file (cleared row i) q) (has_key m.file row q) row_width 0
          (λ j lo hi.
            has_key_clear q j (omega arith)
            ∙ ap (λ b. if b then false else has_key m.file row q j) e)

    cell_of-clear_self : cell_of m.file (cleared row i) k ≡ none
    unfolding cell_of
    cell_of-clear_self = position-eq-none (has_key m.file (cleared row i) k) row_width 0 (λ j lo hi.
        has_key_clear k j (omega arith)
        ∙ ap (λ b. if b then false else has_key m.file row k j) (bytes_eq_self k))

    -- The key whose cell was cleared is gone, and every other key reads as before.
    pub view_row-clear :
        (q : Bytes)
        → view_row m.file (cleared row i) q ≡ (if bytes_eq q k then none else view_row m.file row q)
    unfolding view_row
    view_row-clear q = elim (Bool-cases (bytes_eq q k)) [
      | inl e ↦ rw (e, (bytes_eq_iff q k).0 e, cell_of-clear_self)
      | inr e ↦ rw (e, cell_of-clear_ne q e) (value_of-cleared m.file row i (cell_of m.file row q))
    ]
