-- ===== src/Shard/Mmap.antt =====
-- `MmapFile` of src/shard.rs: a shard file, its mapped header, and the entries read and written.
pub mod Runs
pub mod Extends
use candystore.Base.{ℕ, ◌+◌, ◌*◌, Bool, true, false, [], ◌++◌, update, if◌then◌else◌}
use candystore.Base.Bytes.{Bytes, length, take, drop}
use candystore.Base.Outcome.{Result, ok, err, Exec, ◌>>=◌, ◌>>◌, continue}
use candystore.Hashing.{row_width}
use candystore.Stats.{InternalStats, fetch_add, add_entry, add_read}
use candystore.Shard.Disk.{File, read_exact_at, write_all_at}
use candystore.Shard.Row.{ShardRow, empty_row, pack, key_len, val_len, file_offset}

-- `InternalConfig` of src/store.rs, the fields that the data path reads
pub record InternalConfig : Type 0 where
  pub max_shard_size : ℕ
  pub min_compaction_threashold : ℕ
  pub expected_number_of_keys : ℕ
  pub max_concurrent_list_ops : ℕ
  pub truncate_up : Bool

-- the file and `ShardHeader`
pub record MmapFile : Type 0 where
  pub file : File
  pub wasted_bytes : ℕ
  pub write_offset : ℕ
  pub num_inserts : ℕ
  pub num_removals : ℕ
  pub compacted_up_to : ℕ
  pub rows : ℕ → ShardRow

abbrev pub KvPair : Type 0
KvPair = Bytes × Bytes

-- a file that is being worked on, and the statistics of the store
pub record Io : Type 0 where
  pub mmap : MmapFile
  pub stats : InternalStats

-- `MmapFile::create`: a zeroed header, and the size that the configuration asks for
unfoldable pub create : InternalConfig → MmapFile
create config = record {
  file = record { len = if config.truncate_up then config.max_shard_size else 0; byte = λ _. 0 };
  wasted_bytes = 0;
  write_offset = 0;
  num_inserts = 0;
  num_removals = 0;
  compacted_up_to = 0;
  rows = λ _. empty_row;
}

-- `header.rows[r].offsets_and_sizes[i] = v`
abbrev pub set_offset : ℕ → ℕ → ℕ → MmapFile → MmapFile
set_offset r i v m =
    let row = m.rows r in
    record m {
      rows = update m.rows r (record row { offsets_and_sizes = update row.offsets_and_sizes i v });
    }

-- `header.rows[r].signatures[i] = v`
abbrev pub set_signature : ℕ → ℕ → ℕ → MmapFile → MmapFile
set_signature r i v m =
    let row = m.rows r in
    record m { rows = update m.rows r (record row { signatures = update row.signatures i v }) }

-- the end of `_read_kv`: the read is counted, and the buffer taken apart
take_apart : Bool → ℕ → ℕ → Result Bytes → Exec InternalStats KvPair
take_apart include_val klen vlen (err e) stats = (err e, stats)
take_apart true klen vlen (ok buf) stats =
    (ok (take klen buf, take vlen (drop klen buf)), add_read (length buf) stats)
take_apart false klen vlen (ok buf) stats = (ok (take klen buf, []), add_read (length buf) stats)

-- `MmapFile::_read_kv`: one read of the key, and of the value if that is asked for
unfoldable pub read_kv_if : Bool → File → ℕ → Exec InternalStats KvPair
unfolding take_apart
read_kv_if include_val f offset_and_size stats =
    let klen = key_len offset_and_size in
    let vlen = if include_val then val_len offset_and_size else 0 in
    take_apart include_val klen vlen (read_exact_at f (klen + vlen) (file_offset offset_and_size))
      stats

-- `MmapFile::read_kv`
unfoldable pub read_kv : File → ℕ → Exec InternalStats KvPair
unfolding read_kv_if
read_kv = read_kv_if true

abbrev pub on_stats : {A : Type 0} → Exec InternalStats A → Exec Io A
on_stats m s = let (r, stats) = m s.stats in (r, record s { stats = stats })

abbrev pub on_mmap : (MmapFile → MmapFile) → Exec Io (Unit {0})
on_mmap f s = (ok tt, record s { mmap = f s.mmap })

abbrev pub count_stats : (InternalStats → InternalStats) → Exec Io (Unit {0})
count_stats f s = (ok tt, record s { stats = f s.stats })

-- `MmapFile::write_kv`: the area is allocated by moving the write offset, then written
unfoldable pub write_kv : Bytes → Bytes → Exec Io ℕ
write_kv key val s =
    let m = s.mmap in
    let entry_size = length key + length val in
    (
      ok (pack (length key) (length val) m.write_offset),
      record {
        mmap = record m {
          write_offset = fetch_add m.write_offset entry_size;
          file = write_all_at m.file (key ++ val) m.write_offset;
        };
        stats = add_entry entry_size s.stats;
      },
    )

-- the entry is written, then its descriptor, then its signature, as insertion, compaction, split
-- and merge all do
unfoldable pub place : ℕ → ℕ → ℕ → Bytes → Bytes → Exec Io (Unit {0})
unfolding write_kv
place r col sig key val = do
  new_off ← write_kv key val
  on_mmap (set_offset r col new_off)
  on_mmap (set_signature r col sig)
  on_mmap (λ m. record m { num_inserts = fetch_add m.num_inserts 1 })
