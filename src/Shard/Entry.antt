-- ===== src/Shard/Entry.antt =====
-- The operations of src/shard.rs on one row of one file: what the closures that are handed to
-- `operate_on_row` and `operate_on_row_mut` do.
pub mod Model
pub mod Cells
pub mod Clear
pub mod Seek
pub mod Reads
pub mod Writes
pub mod Spec
pub mod Overwrite
pub mod Place
pub mod Insert
pub mod ByHash
use candystore.Base.{
  ℕ, zero, suc, ◌+◌, ◌-◌, Bool, true, false, not, Option, none, some, List, [], ◌∷◌, ltb, leb, ◌==◌,
  if◌then◌else◌,
}
use candystore.Base.Bytes.{Bytes, length, bytes_eq}
use candystore.Base.Outcome.{Exec, ok, pure, fail, gets, out_of_fuel, ◌>>=◌, ◌>>◌, continue}
use candystore.Hashing.{PartedHash, signature, invalid_sig, row_width}
use candystore.Stats.{InternalStats, fetch_add}
use candystore.Shard.Row.{ShardRow, lookup}
use candystore.Shard.Mmap.{
  InternalConfig, MmapFile, KvPair, Io, set_offset, set_signature, read_kv, read_kv_if, on_stats,
  on_mmap, count_stats, write_kv, place,
}

pub data InsertStatus : Type 0 where
  added : InsertStatus
  replaced : Bytes → InsertStatus
  key_does_not_exist : InsertStatus
  split_needed : InsertStatus
  already_exists : Bytes → InsertStatus

pub data InsertMode : Type 0 where
  set : InsertMode
  replace : Option Bytes → InsertMode
  get_or_create : InsertMode

-- the row guard that the first case carries in the source is the atomicity of the call
pub data TryReplaceStatus : Type 0 where
  missing : Bool → TryReplaceStatus
  not_replaced : Bytes → TryReplaceStatus
  was_replaced : Bytes → TryReplaceStatus

-- the cell that holds a key, and the entry as it was read
pub record Hit : Type 0 where
  pub idx : ℕ
  pub key : Bytes
  pub val : Bytes

abbrev pub positive_lookup : Exec Io (Unit {0})
positive_lookup =
    count_stats (λ t. record t { num_positive_lookups = fetch_add t.num_positive_lookups 1 })

abbrev pub negative_lookup : Exec Io (Unit {0})
negative_lookup =
    count_stats (λ t. record t { num_negative_lookups = fetch_add t.num_negative_lookups 1 })

-- `while let Some(idx) = row.lookup(sig, &mut start)`, up to the first entry whose key is `key`:
-- the loop that `get`, `try_replace` and `remove` share. The flag is `had_collision`.
unfoldable pub seek : ℕ → MmapFile → ShardRow → ℕ → Bytes → ℕ → Bool → Exec Io (Option Hit × Bool)
seek zero m row sig key start coll = fail out_of_fuel
seek (suc fuel) m row sig key start coll = elim (lookup row sig start) [
  | none ↦ pure (none, coll)
  | some idx ↦ do
    kv ← on_stats (read_kv m.file (row.offsets_and_sizes idx))
    elim (bytes_eq key kv.0) [
      | true ↦ pure (some (record { idx = idx; key = kv.0; val = kv.1 }), coll)
      | false ↦ seek fuel m row sig key (idx + 1) true
    ]
]

-- a row has `row_width` cells, so one round more than that is enough
abbrev pub seek_fuel : ℕ
seek_fuel = row_width + 1

-- the closure of `Shard::get`
abbrev got : Option Hit → Exec Io (Option Bytes)
got (some h) = do positive_lookup; pure (some h.val)
got none = do negative_lookup; pure none

unfoldable pub get_in_row : ℕ → PartedHash → Bytes → Exec Io (Option Bytes)
get_in_row r ph key = do
  m ← gets (λ s. s.mmap)
  found ← seek seek_fuel m (m.rows r) (signature ph) key 0 false
  got found.0

-- the loop of `Shard::get_by_hash`: every entry whose signature matches
unfoldable pub collect : ℕ → MmapFile → ShardRow → ℕ → ℕ → Bool → Exec Io (List KvPair)
collect zero m row sig start first_time = fail out_of_fuel
collect (suc fuel) m row sig start first_time = elim (lookup row sig start) [
  | none ↦ pure []
  | some idx ↦ do
    kv ← on_stats (read_kv m.file (row.offsets_and_sizes idx))
    elim first_time [ true ↦ positive_lookup | false ↦ pure tt ]
    rest ← collect fuel m row sig (idx + 1) false
    pure (kv ∷ rest)
]

-- the closure of `Shard::get_by_hash`
abbrev pub collected : List KvPair → Exec Io (List KvPair)
collected [] = do negative_lookup; pure []
collected (kv ∷ kvs) = pure (kv ∷ kvs)

unfoldable pub get_by_hash_in_row : ℕ → PartedHash → Exec Io (List KvPair)
get_by_hash_in_row r ph = do
  m ← gets (λ s. s.mmap)
  kvs ← collect seek_fuel m (m.rows r) (signature ph) 0 true
  collected kvs

-- the end of `try_replace`: a new entry is written unless the value is the old one
unfoldable pub overwrite : ℕ → Hit → Bytes → Bytes → Exec Io TryReplaceStatus
overwrite r h key val = if bytes_eq val h.val then pure (was_replaced h.val) else (do
  new_off ← write_kv key val
  on_mmap (set_offset r h.idx new_off)
  on_mmap (λ m. record m { wasted_bytes = fetch_add m.wasted_bytes (length h.key + length h.val) })
  count_stats (λ t. record t { num_updates = fetch_add t.num_updates 1 })
  pure (was_replaced h.val))

abbrev replace_hit : ℕ → Hit → Bytes → Bytes → InsertMode → Exec Io TryReplaceStatus
replace_hit r h key val get_or_create = do positive_lookup; pure (not_replaced h.val)
replace_hit r h key val set = overwrite r h key val
replace_hit r h key val (replace none) = overwrite r h key val
replace_hit r h key val (replace (some expected)) =
    if bytes_eq expected h.val then overwrite r h key val else pure (not_replaced h.val)

abbrev replace_found : ℕ → Bytes → Bytes → InsertMode → Option Hit × Bool → Exec Io TryReplaceStatus
replace_found r key val mode (none, coll) = pure (missing coll)
replace_found r key val mode (some h, coll) = replace_hit r h key val mode

-- `Shard::try_replace`
unfoldable pub try_replace : ℕ → PartedHash → Bytes → Bytes → InsertMode → Exec Io TryReplaceStatus
try_replace r ph key val mode = do
  m ← gets (λ s. s.mmap)
  found ← seek seek_fuel m (m.rows r) (signature ph) key 0 false
  replace_found r key val mode found

-- `matches!(mode, InsertMode::Replace(_))`
abbrev pub is_replace : InsertMode → Bool
is_replace (replace e) = true
is_replace _ = false

-- a free cell takes the entry; a full row asks for a split
unfoldable pub add_entry_in : ℕ → PartedHash → Bytes → Bytes → Bool → Exec Io InsertStatus
add_entry_in r ph key val had_collision = do
  m ← gets (λ s. s.mmap)
  elim (lookup (m.rows r) invalid_sig 0) [
    | none ↦ pure split_needed
    | some idx ↦ do
      place r idx (signature ph) key val
      count_stats (λ t. record t {
        num_collisions = if had_collision then fetch_add t.num_collisions 1 else t.num_collisions;
      })
      pure added
  ]

abbrev settle :
    ℕ → PartedHash → Bytes → Bytes → InsertMode → TryReplaceStatus → Exec Io InsertStatus
settle r ph key val mode (missing coll) =
    if is_replace mode then pure key_does_not_exist else add_entry_in r ph key val coll
settle r ph key val mode (not_replaced v) = pure (already_exists v)
settle r ph key val mode (was_replaced v) = pure (replaced v)

-- what the closure of `Shard::insert` decides before it touches the row
pub data Admission : Type 0 where
  go_on : Option ℕ → Admission
  refuse : Admission

unfoldable pub admit : InternalConfig → Bool → MmapFile → ℕ → Admission
admit config is_compacting m size =
    if is_compacting
    then go_on none
    else if leb config.min_compaction_threashold m.wasted_bytes
    then go_on (some m.write_offset)
    else if ltb config.max_shard_size (m.write_offset + size)
    then refuse
    else go_on none

-- the closure of `Shard::insert`: the status, and `should_compact`
abbrev admitted :
    ℕ → PartedHash → Bytes → Bytes → InsertMode → Admission → Exec Io (InsertStatus × Option ℕ)
admitted r ph key val mode refuse = pure (split_needed, none)
admitted r ph key val mode (go_on should_compact) = do
  tried ← try_replace r ph key val mode
  status ← settle r ph key val mode tried
  pure (status, should_compact)

unfoldable pub insert_in_row :
    InternalConfig
    → Bool
    → ℕ
    → PartedHash
    → Bytes
    → Bytes
    → InsertMode
    → Exec Io (InsertStatus × Option ℕ)
insert_in_row config is_compacting r ph key val mode = do
  m ← gets (λ s. s.mmap)
  admitted r ph key val mode (admit config is_compacting m (length key + length val))

-- the closure of `Shard::remove`
abbrev clear_hit : ℕ → Option Hit → Exec Io (Option Bytes)
clear_hit r none = pure none
clear_hit r (some h) = do
  on_mmap (set_signature r h.idx invalid_sig)
  on_mmap (λ m. record m { num_removals = fetch_add m.num_removals 1 })
  on_mmap (λ m. record m { wasted_bytes = fetch_add m.wasted_bytes (length h.key + length h.val) })
  pure (some h.val)

unfoldable pub remove_in_row : ℕ → PartedHash → Bytes → Exec Io (Option Bytes)
remove_in_row r ph key = do
  m ← gets (λ s. s.mmap)
  found ← seek seek_fuel m (m.rows r) (signature ph) key 0 false
  clear_hit r found.0

-- the closure of `Shard::read_at`
unfoldable pub read_at_in_row : Bool → ℕ → ℕ → Exec Io (Option KvPair)
read_at_in_row include_val r i = do
  m ← gets (λ s. s.mmap)
  if (m.rows r).signatures i == invalid_sig then pure none else (do
    kv ← on_stats (read_kv_if include_val m.file ((m.rows r).offsets_and_sizes i))
    pure (some kv))
