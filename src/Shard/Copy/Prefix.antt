-- ===== src/Shard/Copy/Prefix.antt =====
-- The first cells of a row: the map they stand for and the bytes they take.
use candystore.Base.{
  ◌*◌, ℕ, zero, suc, ◌+◌, ◌≤◌, ◌<◌, ◌^◌, ◌≡◌, ◌≢◌, refl, sym, ap, ◌∙◌, Bool, true, false, ◌||◌,
  Option, none, some, ◌==◌, if◌then◌else◌, inl, inr, Bool-cases, ==_of_ne, arith,
}
use candystore.Base.Bytes.{Bytes, bytes_eq, bytes_eq_iff}
use candystore.Base.Outcome.{◌>>◌}
use candystore.Base.Search.{position, position_snoc_miss, position_snoc_hit, position-eq-none}
use candystore.Hashing.{Hasher, invalid_sig, row_width}
use candystore.Shard.Row.{ShardRow, key_len, val_len}
use candystore.Shard.Disk.{File}
use candystore.Shard.Mmap.{MmapFile}
use candystore.Shard.Mmap.Runs.{key_at, val_at}
use candystore.Shard.Entry.Model.{
  Used, RowInv, has_key, has_key-false, has_key-intro, value_of, view_row,
}
use candystore.Shard.Copy.{transfer, copy_cols}
use native.Mathlib.Decide.{ℕ_discrete}
use mathlib.Core.Bool.{false≢true}

pub orb : (b : Bool) → (b || (invalid_sig == invalid_sig)) ≡ true
orb true = refl
orb false = refl

-- the value under a key among the first `n` cells of a row
abbrev pub view_prefix : File → ShardRow → ℕ → Bytes → Option Bytes
view_prefix f row n q = value_of f row (position (has_key f row q) n 0)

module _ (f : File) (row : ShardRow) (n : ℕ) where
  pub view_prefix_free :
      row.signatures n ≡ invalid_sig
      → (q : Bytes) → view_prefix f row (n + 1) q ≡ view_prefix f row n q
  view_prefix_free free q =
      ap (value_of f row)
        (position_snoc_miss (has_key f row q) n (has_key-false f row q n (λ u e. u free)))

  -- a cell whose key no cell before it has adds its entry
  pub view_prefix-Used :
      Used row n
      → ((j : ℕ)
          → j < n
          → Used row j
          → key_at f (row.offsets_and_sizes j) ≢ key_at f (row.offsets_and_sizes n))
      → (q : Bytes)
      → view_prefix f row (n + 1) q ≡ (
          if bytes_eq q (key_at f (row.offsets_and_sizes n))
          then some (val_at f (row.offsets_and_sizes n))
          else view_prefix f row n q)
  view_prefix-Used u fresh q = elim (Bool-cases (bytes_eq q (key_at f (row.offsets_and_sizes n)))) [
    | inl t ↦
        let same : q ≡ key_at f (row.offsets_and_sizes n) = (bytes_eq_iff _ _).0 t in
        rw t (
          ap (value_of f row) (
            position_snoc_hit (has_key f row q) n
              (position-eq-none (has_key f row q) n 0 (λ j lo hi.
                has_key-false f row q j (λ v e. fresh j (omega arith) v (sym e ∙ same))))
              (has_key-intro f row q n u same)))
    | inr e ↦ rw e (
        ap (value_of f row) (
          position_snoc_miss (has_key f row q) n
            (has_key-false f row q n (λ v same. false≢true (sym e ∙ (bytes_eq_iff _ _).1 same)))))
  ]

-- the bytes of the entries in `n` cells from `col` on
unfoldable pub cells_size : ShardRow → ℕ → ℕ → ℕ
cells_size row zero col = 0
cells_size row (suc n) col =
    (if row.signatures col == invalid_sig
      then 0
      else key_len (row.offsets_and_sizes col) + val_len (row.offsets_and_sizes col))
    + cells_size row n (col + 1)

pub cells_size_free :
    (row : ShardRow) (n col : ℕ)
    → row.signatures col ≡ invalid_sig
    → cells_size row (suc n) col ≡ cells_size row n (col + 1)
unfolding cells_size
cells_size_free row n col e = rw e (omega arith)

pub cells_size-Used :
    (row : ShardRow) (n col : ℕ)
    → Used row col
    → cells_size row (suc n) col
      ≡ key_len (row.offsets_and_sizes col)
        + val_len (row.offsets_and_sizes col)
        + cells_size row n (col + 1)
unfolding cells_size
cells_size-Used row n col u = rw (==_of_ne _ _ u)

pub copy_cols_free :
    (hash : Hasher) (src : MmapFile) (r : ℕ) (first_row : Bool) (n col target_col : ℕ)
    → (src.rows r).signatures col ≡ invalid_sig
    → copy_cols hash src r first_row (suc n) col target_col
      ≡ copy_cols hash src r first_row n (col + 1) target_col
unfolding copy_cols
copy_cols_free hash src r first_row n col target_col e = rw (e, copy_cols)

pub copy_cols-Used :
    (hash : Hasher) (src : MmapFile) (r : ℕ) (first_row : Bool) (n col target_col : ℕ)
    → Used (src.rows r) col
    → copy_cols hash src r first_row (suc n) col target_col ≡ (
        transfer hash src r col target_col first_row
        >> copy_cols hash src r first_row n (col + 1) (target_col + 1))
unfolding copy_cols
copy_cols-Used hash src r first_row n col target_col u = rw (==_of_ne _ _ u, copy_cols)

pub view_row-free :
    (f : File) (row : ShardRow) (q : Bytes)
    → ((j : ℕ) → row.signatures j ≡ invalid_sig)
    → view_row f row q ≡ none
unfolding view_row
view_row-free f row q free = ap (value_of f row) (
    position-eq-none (has_key f row q) row_width 0
      (λ j lo hi. has_key-false f row q j (λ u e. u (free j))))

pub view_prefix_all :
    (f : File) (row : ShardRow) (n : ℕ) (q : Bytes)
    → n ≡ row_width
    → view_prefix f row n q ≡ view_row f row q
unfolding view_row
view_prefix_all f row n q e = rw e

-- A part of a valid row takes less than the lengths of its entries can say.
pub cells_size-le :
    {hash : Hasher} {m : MmapFile} {r : ℕ} {row : ShardRow}
    → RowInv hash m r row
    → (n col : ℕ) → col + n ≤ row_width
    → cells_size row n col ≤ n * 2 ^ 17
unfolding cells_size
cells_size-le v zero col le = omega arith
cells_size-le {row = row} v (suc n) col le =
    let rest = cells_size-le v n (col + 1) (omega arith) in
    elim (ℕ_discrete (row.signatures col) invalid_sig) [
      | yes free ↦ omega (arith, cells_size_free row n col free, rest)
      | no used ↦
          omega (arith, cells_size-Used row n col used, rest, (v.cells col (omega arith) used).word)
    ]
