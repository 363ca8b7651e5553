-- ===== src/Shard/Entry/Model.antt =====
-- What a row of a file holds: the invariant of its cells, and the map from keys to values that it
-- stands for, read by comparing keys alone.
use candystore.Base.{
  ℕ, ◌^◌, ◌<◌, ◌≡◌, ◌≢◌, Bool, true, false, not, ◌&&◌, Option, none, some, ◌==◌, ap, arith, inl,
  inr, Option-cases,
}
use candystore.Base.Bytes.{Bytes, bytes_eq, bytes_eq_iff}
use candystore.Base.Search.{position, position_congr, IsFirst, position-IsFirst}
use native.Mathlib.Decide.{ℕ_discrete}
use candystore.Hashing.{Hasher, parted_hash, signature, row_selector, invalid_sig, row_width}
use candystore.Shard.Disk.{File}
use candystore.Shard.Row.{ShardRow}
use candystore.Shard.Mmap.{MmapFile}
use candystore.Shard.Mmap.Runs.{key_at, val_at}
use candystore.Shard.Mmap.Extends.{Fits, Extends, key_at-Extends, val_at-Extends}

-- a cell in use: its area was allocated, and its signature and row are those of its key
pub record IsEntry (hash : Hasher) (m : MmapFile) (r sig d : ℕ) : Type 0 where
  pub fits : Fits m d
  pub word : d < 2 ^ 64
  pub signed : signature (parted_hash hash (key_at m.file d)) ≡ sig
  pub home : row_selector (parted_hash hash (key_at m.file d)) ≡ r

abbrev pub Used : ShardRow → ℕ → Type 0
Used row i = row.signatures i ≢ invalid_sig

pub record RowInv (hash : Hasher) (m : MmapFile) (r : ℕ) (row : ShardRow) : Type 0 where
  pub cells :
      (i : ℕ)
      → i < row_width
      → Used row i
      → IsEntry hash m r (row.signatures i) (row.offsets_and_sizes i)
  pub unique :
      (i j : ℕ)
      → i < row_width
      → j < row_width
      → Used row i
      → Used row j
      → key_at m.file (row.offsets_and_sizes i) ≡ key_at m.file (row.offsets_and_sizes j)
      → i ≡ j

-- the cell is in use and its entry has this key
abbrev pub has_key : File → ShardRow → Bytes → ℕ → Bool
has_key f row key i =
    not (row.signatures i == invalid_sig) && bytes_eq key (key_at f (row.offsets_and_sizes i))

abbrev pub value_of : File → ShardRow → Option ℕ → Option Bytes
value_of f row none = none
value_of f row (some i) = some (val_at f (row.offsets_and_sizes i))

-- the cell of a key, searched by the key alone
unfoldable pub cell_of : File → ShardRow → Bytes → Option ℕ
cell_of f row key = position (has_key f row key) row_width 0

-- the value under a key
unfoldable pub view_row : File → ShardRow → Bytes → Option Bytes
unfolding cell_of
view_row f row key = value_of f row (cell_of f row key)

pub has_key-true :
    (f : File) (row : ShardRow) (key : Bytes) (i : ℕ)
    → has_key f row key i ≡ true
    → Used row i × (key ≡ key_at f (row.offsets_and_sizes i))
has_key-true f row key i h = ground (arith, bytes_eq_iff key (key_at f (row.offsets_and_sizes i)))

pub has_key-intro :
    (f : File) (row : ShardRow) (key : Bytes) (i : ℕ)
    → Used row i
    → key ≡ key_at f (row.offsets_and_sizes i)
    → has_key f row key i ≡ true
has_key-intro f row key i u e =
    ground (arith, bytes_eq_iff key (key_at f (row.offsets_and_sizes i)))

pub has_key-false :
    (f : File) (row : ShardRow) (key : Bytes) (i : ℕ)
    → (Used row i → key ≢ key_at f (row.offsets_and_sizes i))
    → has_key f row key i ≡ false
has_key-false f row key i h = ground (arith, bytes_eq_iff key (key_at f (row.offsets_and_sizes i)))

-- the cell that is found is in use and has the key, and no cell before it has
pub record IsCellOf (f : File) (row : ShardRow) (key : Bytes) (i : ℕ) : Type 0 where
  pub below : i < row_width
  pub used : Used row i
  pub keyed : key ≡ key_at f (row.offsets_and_sizes i)
  pub first : IsFirst (has_key f row key) row_width 0 i

pub cell_of-IsCellOf :
    (f : File) (row : ShardRow) (key : Bytes) (i : ℕ)
    → cell_of f row key ≡ some i
    → IsCellOf f row key i
unfolding cell_of
cell_of-IsCellOf f row key i e =
    let first = position-IsFirst (has_key f row key) row_width 0 i e in
    let (used, keyed) = has_key-true f row key i first.holds in
    record { below = omega (arith, first.below); used = used; keyed = keyed; first = first }

-- an append changes neither what the row holds nor its invariant
module _ {hash : Hasher} {m m' : MmapFile} (x : Extends m m') {r : ℕ} {row : ShardRow} where
  pub RowInv-Extends : RowInv hash m r row → RowInv hash m' r row
  RowInv-Extends v = record {
    cells = λ i lt u.
        let c = v.cells i lt u in
        let same = key_at-Extends x (row.offsets_and_sizes i) c.fits in
        record {
          fits = omega (arith, x.grows, c.fits);
          word = c.word;
          signed = rw same c.signed;
          home = rw same c.home;
        };
    unique = λ i j li lj ui uj e. v.unique i j li lj ui uj (
        rw
          (
            ← key_at-Extends x (row.offsets_and_sizes i) (v.cells i li ui).fits,
            ← key_at-Extends x (row.offsets_and_sizes j) (v.cells j lj uj).fits,
          )
          e);
  }

  has_key-Extends :
      RowInv hash m r row
      → (q : Bytes) (i : ℕ) → i < row_width
      → has_key m'.file row q i ≡ has_key m.file row q i
  has_key-Extends v q i lt = elim (ℕ_discrete (row.signatures i) invalid_sig) [
    | yes free ↦ rw free
    | no used ↦ rw (key_at-Extends x (row.offsets_and_sizes i) (v.cells i lt used).fits)
  ]

  cell_of-Extends : RowInv hash m r row → (q : Bytes) → cell_of m'.file row q ≡ cell_of m.file row q
  unfolding cell_of
  cell_of-Extends v q =
      position_congr (has_key m'.file row q) (has_key m.file row q) row_width 0
        (λ i lo hi. has_key-Extends v q i (omega arith))

  pub view_row-Extends :
      RowInv hash m r row → (q : Bytes) → view_row m'.file row q ≡ view_row m.file row q
  unfolding view_row
  view_row-Extends v q = elim (Option-cases (cell_of m.file row q)) [
    | inl e ↦ rw (cell_of-Extends v q, e)
    | inr (i, e) ↦
        let c = cell_of-IsCellOf m.file row q i e in
        rw (cell_of-Extends v q, e)
          (ap some (val_at-Extends x (row.offsets_and_sizes i) (v.cells i c.below c.used).fits))
  ]

-- a row that reads nothing under a key has no cell for it
pub cell_of-none :
    (f : File) (row : ShardRow) (key : Bytes) → view_row f row key ≡ none → cell_of f row key ≡ none
unfolding view_row
cell_of-none f row key e = elim (Option-cases (cell_of f row key)) [
  | inl n ↦ n
  | inr (i, s) ↦ cc (s, e)
]
