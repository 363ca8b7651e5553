-- ===== src/Shard/Entry/Writes.antt =====
-- What a write to one row does to a file: placing a new entry, overwriting one, freeing one.
use candystore.Base.{
  ℕ, ◌<◌, ◌≡◌, ◌≢◌, refl, sym, ap, ◌∙◌, Option, some, if◌then◌else◌, inl, inr, Bool-cases, arith,
}
use candystore.Base.Bytes.{Bytes, bytes_eq, bytes_eq_iff}
use candystore.Hashing.{Hasher, parted_hash, signature, row_selector, row_width}
use candystore.Hashing.Laws.{signature-parted_hash}
use candystore.Shard.Mmap.{MmapFile}
use candystore.Shard.Mmap.Runs.{key_at, val_at}
use candystore.Shard.Mmap.Extends.{
  IsBacked, Room, Extends, Extends-refl, Extends-trans, key_at-Extends, appended, new_offset,
  Extends-appended, Fits-new_offset, key_at-new_offset, val_at-new_offset, new_offset-lt,
}
use candystore.Shard.Entry.Model.{Used, IsEntry, RowInv, RowInv-Extends, view_row, view_row-Extends}
use candystore.Shard.Entry.Cells.{Alone, Sets, view_row-set, RowInv-set}

-- the file `g` is `m` with the value `v`, or nothing, under the key `k` of row `r`
pub record Writes (hash : Hasher) (m g : MmapFile) (r : ℕ) (k : Bytes) (v : Option Bytes)
    : Type 0 where
  pub extends : Extends m g
  pub elsewhere : (s : ℕ) → s ≢ r → g.rows s ≡ m.rows s
  pub inv : RowInv hash g r (g.rows r)
  pub view :
      (q : Bytes)
      → view_row g.file (g.rows r) q ≡ (if bytes_eq q k then v else view_row m.file (m.rows r) q)
  pub frontier : g.compacted_up_to ≡ m.compacted_up_to

-- `g` differs from `m` in the table and the counters only
pub record SameData (m g : MmapFile) : Type 0 where
  pub offset : g.write_offset ≡ m.write_offset
  pub file : g.file ≡ m.file

pub Extends-SameData : {m g : MmapFile} → IsBacked m → SameData m g → Extends m g
Extends-SameData b s = record {
  grows = omega (arith, s.offset);
  backed = rw (s.offset, s.file) b;
  same = λ n lo h. rw s.file;
}

-- an entry appended to `m`, and the cell `i` of row `r` that now describes it
pub record Points (m g : MmapFile) (r i : ℕ) (key val : Bytes) (sig : ℕ) : Type 0 where
  pub data_of : SameData (appended m key val) g
  pub elsewhere : (s : ℕ) → s ≢ r → g.rows s ≡ m.rows s
  pub others :
      (j : ℕ)
      → j ≢ i
      → ((g.rows r).signatures j ≡ (m.rows r).signatures j)
        × ((g.rows r).offsets_and_sizes j ≡ (m.rows r).offsets_and_sizes j)
  pub offset : (g.rows r).offsets_and_sizes i ≡ new_offset m key val
  pub signed : (g.rows r).signatures i ≡ sig
  pub frontier : g.compacted_up_to ≡ m.compacted_up_to

module _ {hash : Hasher} {m g : MmapFile} {r i : ℕ} {key val : Bytes}
    (p : Points m g r i key val (signature (parted_hash hash key))) (b : IsBacked m)
    (room : Room m key val) (home : row_selector (parted_hash hash key) ≡ r)
    (inv : RowInv hash m r (m.rows r)) (below : i < row_width)
    (alone : Alone m.file (m.rows r) i key)
    (was : Used (m.rows r) i → key_at m.file ((m.rows r).offsets_and_sizes i) ≡ key) where
  x₁ : Extends m (appended m key val)
  x₁ = Extends-appended b room

  x₂ : Extends (appended m key val) g
  x₂ = Extends-SameData x₁.backed p.data_of

  x : Extends m g
  x = Extends-trans x₁ x₂

  new_key : key_at g.file ((g.rows r).offsets_and_sizes i) ≡ key
  new_key = rw (p.offset, p.data_of.file) (key_at-new_offset b room)

  new_val : val_at g.file ((g.rows r).offsets_and_sizes i) ≡ val
  new_val = rw (p.offset, p.data_of.file) (val_at-new_offset b room)

  points-Sets : Sets g.file (m.rows r) (g.rows r) i key val
  points-Sets = record {
    below = below;
    used = λ e. signature-parted_hash hash key (sym p.signed ∙ e);
    key = new_key;
    val = new_val;
    others = p.others;
    alone = λ j lt ne u e. alone j lt ne u (sym (key_at-Extends x _ (inv.cells j lt u).fits) ∙ e);
    was = λ u. key_at-Extends x _ (inv.cells i below u).fits ∙ was u;
  }

  points-IsEntry : IsEntry hash g r ((g.rows r).signatures i) ((g.rows r).offsets_and_sizes i)
  points-IsEntry = record {
    fits = rw (p.offset, p.data_of.offset) (Fits-new_offset b room);
    word = rw p.offset (new_offset-lt b room);
    signed = rw (new_key, p.signed);
    home = rw new_key home;
  }

  -- A cell that points at an appended entry gives the key its value and changes no other key.
  pub points-Writes : Writes hash m g r key (some val)
  points-Writes = record {
    extends = x;
    elsewhere = p.elsewhere;
    inv = RowInv-set points-Sets points-IsEntry (RowInv-Extends x inv);
    view = λ q.
        view_row-set points-Sets q
        ∙ ap (λ o. if bytes_eq q key then some val else o) (view_row-Extends x inv q);
    frontier = p.frontier;
  }

-- A file that was not touched holds the value that it held.
pub Writes-same :
    {hash : Hasher} {m : MmapFile} {r : ℕ} {k : Bytes} (v : Option Bytes)
    → IsBacked m
    → RowInv hash m r (m.rows r)
    → view_row m.file (m.rows r) k ≡ v
    → Writes hash m m r k v
Writes-same {hash} {m} {r} {k} v b inv e = record {
  extends = Extends-refl m b;
  elsewhere = λ s ne. refl;
  inv = inv;
  view = λ q. elim (Bool-cases (bytes_eq q k)) [
    | inl t ↦ rw (t, (bytes_eq_iff q k).0 t) e
    | inr f ↦ rw f
  ];
  frontier = refl;
}
