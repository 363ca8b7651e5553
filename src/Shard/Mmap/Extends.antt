-- ===== src/Shard/Mmap/Extends.antt =====
-- A file that was only appended to: what was written before the write offset reads as before.
use candystore.Base.{ℕ, ◌+◌, ◌%◌, ◌^◌, ◌≤◌, ◌<◌, max, ◌≡◌, refl, sym, ap, ◌∙◌, ◌++◌, bit_or, arith}
use candystore.Base.Bytes.{Bytes, length, length-append}
use candystore.Stats.{fetch_add}
use candystore.Shard.Disk.{bytes_at, write_all_at}
use candystore.Shard.Disk.Laws.{bytes_at-write_below, bytes_at-write_parts}
use candystore.Shard.Row.{pack, key_len, val_len, file_offset}
use candystore.Shard.Row.Descriptor.{fields-pack}
use candystore.Shard.Mmap.{MmapFile, write_kv}
use candystore.Shard.Mmap.Runs.{Runs, key_at, val_at}

-- the file holds at least what was allocated
abbrev pub IsBacked : MmapFile → Type 0
IsBacked m = m.write_offset ≤ m.file.len

-- an entry of this size can be described, and its offset fits 32 bits
pub record Room (m : MmapFile) (key val : Bytes) : Type 0 where
  pub key_fits : length key < 2 ^ 16
  pub val_fits : length val < 2 ^ 16
  pub offset_fits : m.write_offset < 2 ^ 32

-- the area of a descriptor lies below the write offset
abbrev pub Fits : MmapFile → ℕ → Type 0
Fits m d = file_offset d + (key_len d + val_len d) ≤ m.write_offset

pub record Extends (m m' : MmapFile) : Type 0 where
  pub grows : m.write_offset ≤ m'.write_offset
  pub backed : IsBacked m'
  pub same :
      (n lo : ℕ) → lo + n ≤ m.write_offset → bytes_at m'.file.byte n lo ≡ bytes_at m.file.byte n lo

pub Extends-refl : (m : MmapFile) → IsBacked m → Extends m m
Extends-refl m b = record { grows = omega arith; backed = b; same = λ n lo h. refl }

pub Extends-trans : {a b c : MmapFile} → Extends a b → Extends b c → Extends a c
Extends-trans x y = record {
  grows = omega (arith, x.grows, y.grows);
  backed = y.backed;
  same = λ n lo h. y.same n lo (omega (arith, x.grows)) ∙ x.same n lo h;
}

module _ {m m' : MmapFile} (x : Extends m m') (d : ℕ) (fits : Fits m d) where
  pub key_at-Extends : key_at m'.file d ≡ key_at m.file d
  key_at-Extends = x.same (key_len d) (file_offset d) (omega arith)

  pub val_at-Extends : val_at m'.file d ≡ val_at m.file d
  val_at-Extends = x.same (val_len d) (file_offset d + key_len d) (omega arith)

-- the file after the area of an entry was allocated and written
abbrev pub appended : MmapFile → Bytes → Bytes → MmapFile
appended m key val = record m {
  write_offset = fetch_add m.write_offset (length key + length val);
  file = write_all_at m.file (key ++ val) m.write_offset;
}

abbrev pub new_offset : MmapFile → Bytes → Bytes → ℕ
new_offset m key val = pack (length key) (length val) m.write_offset

pub Runs-write_kv :
    (key val : Bytes) (f : MmapFile)
    → Runs (write_kv key val) f (new_offset f key val) (appended f key val)
unfolding write_kv
Runs-write_kv key val f = record {
  at = λ s e. (
    ap (λ (m : MmapFile). candystore.Base.Outcome.ok (new_offset m key val)) e,
    ap (λ (m : MmapFile). appended m key val) e,
  );
}

module _ {m : MmapFile} {key val : Bytes} (b : IsBacked m) (room : Room m key val) where
  -- Writing an entry keeps all that was written before, and its descriptor points at it.
  appended_offset : (appended m key val).write_offset ≡ m.write_offset + (length key + length val)
  appended_offset = omega (arith, room.key_fits, room.val_fits, room.offset_fits)

  appended_len : (appended m key val).write_offset ≤ (appended m key val).file.len
  unfolding write_all_at
  appended_len = omega (arith, appended_offset, length-append key val)

  pub Extends-appended : Extends m (appended m key val)
  Extends-appended = record {
    grows = omega (arith, appended_offset);
    backed = appended_len;
    same = λ n lo h. bytes_at-write_below m.file (key ++ val) m.write_offset n lo h (omega arith);
  }

  fields :
      (key_len (new_offset m key val) ≡ length key)
      × (val_len (new_offset m key val) ≡ length val)
      × (file_offset (new_offset m key val) ≡ m.write_offset)
      × (new_offset m key val < 2 ^ 64)
  fields =
      fields-pack (length key) (length val) m.write_offset room.key_fits room.val_fits
        room.offset_fits

  pub Fits-new_offset : Fits (appended m key val) (new_offset m key val)
  Fits-new_offset = omega (arith, fields.0, fields.1, fields.2, appended_offset)

  pub new_offset-lt : new_offset m key val < 2 ^ 64
  new_offset-lt = fields.3

  pub key_at-new_offset : key_at (appended m key val).file (new_offset m key val) ≡ key
  key_at-new_offset = rw (fields.0, fields.2) (bytes_at-write_parts m.file key val m.write_offset).0

  pub val_at-new_offset : val_at (appended m key val).file (new_offset m key val) ≡ val
  val_at-new_offset =
      rw (fields.0, fields.1, fields.2) (bytes_at-write_parts m.file key val m.write_offset).1
