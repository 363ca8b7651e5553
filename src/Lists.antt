-- ===== src/Lists.antt =====
-- src/lists.rs: lists over the store's calls on full keys. A list is a descriptor under its own
-- key, a chain that leads from an index to the hash of an item's key, and an item under its key,
-- whose value ends with its index. The lock of a list makes each call atomic.
pub mod Walk
pub mod Keys
pub mod Cells
pub mod Calls
pub mod Inv
pub mod Stored
pub mod Remove
pub mod Insert
pub mod Set
pub mod Next
pub mod Peek
pub mod Moved
pub mod Moves
pub mod Compact
pub mod Pop
pub mod Index
pub mod Retain
pub mod Rooted
use candystore.Base.{
  ℕ, zero, suc, ◌+◌, ◌-◌, Bool, true, false, ◌&&◌, Option, none, some, List, [], ◌∷◌, ◌++◌, ltb,
  ◌==◌, if◌then◌else◌,
}
use candystore.Base.Bytes.{Bytes, length, take, drop, bytes_eq}
use candystore.Base.Word.{le_bytes, of_le_bytes, wrapping_add, wrapping_sub}
use candystore.Base.Suffix.{ends_with}
use candystore.Base.Outcome.{Exec, pure, fail, panicked, out_of_fuel, ◌>>=◌, ◌>>◌}
use candystore.Hashing.{Hasher, PartedHash, parted_hash}
use candystore.Shard.Mmap.{InternalConfig, KvPair}
use candystore.Shard.Entry.{InsertMode, set, replace, get_or_create}
use candystore.Store.{
  Root, SetStatus, set_prev_value, set_created_new, ReplaceStatus, prev_value, wrong_value,
  does_not_exist, GetOrCreateStatus, created_new, existing_value, get_raw, set_raw, replace_raw,
  remove_raw, get_or_create_raw,
}
use candystore.Queue.{
  Queue, tail, is_empty, bytes_of_queue, from_queue_bytes, push_at, one_item, first_queue_idx,
}

-- `struct List`: its fields, and the layout of its bytes, are those of `struct Queue`
abbrev pub ListDesc : Type 0
ListDesc = Queue

-- `FIRST_LIST_IDX`
abbrev pub first_list_idx : ℕ
first_list_idx = first_queue_idx

-- a root that is also asked for the entries of a hash
pub record HashRoot (S : Type 0) : Type 0 where
  pub root : Root S
  pub by_hash : PartedHash → Exec S (List KvPair)

pub data InsertToListStatus : Type 0 where
  created : Bytes → InsertToListStatus
  item_does_not_exist : InsertToListStatus
  item_wrong_value : Bytes → InsertToListStatus
  item_existing_value : Bytes → InsertToListStatus
  item_replaced : Bytes → InsertToListStatus

-- `make_list_key`
abbrev pub make_list_key : Bytes → Bytes
make_list_key list_key = list_key ++ (3 ∷ [])

-- what stands behind an item's key: the hash of the list, and the namespace
abbrev pub item_suffix : PartedHash → Bytes
item_suffix list_ph = le_bytes 8 list_ph ++ (4 ∷ [])

-- `make_item_key`
abbrev pub make_item_key : PartedHash → Bytes → Bytes
make_item_key list_ph item_key = item_key ++ item_suffix list_ph

-- `ChainKey`, packed
abbrev pub chain_key : PartedHash → ℕ → Bytes
chain_key list_ph idx = le_bytes 8 list_ph ++ (le_bytes 8 idx ++ (5 ∷ []))

-- `v.truncate(v.len() - size_of::<u64>())`
abbrev pub without_index : Bytes → Bytes
without_index v = take (wrapping_sub (length v) 8) v

-- `&v[v.len() - size_of::<u64>()..]`
abbrev pub index_bytes : {S : Type 0} → Bytes → Exec S Bytes
index_bytes v = if ltb (length v) 8 then fail panicked else pure (drop (length v - 8) v)

-- the first entry of a hash that is an item of the list with this index
unfoldable pub find_item : PartedHash → ℕ → List KvPair → Option KvPair
find_item list_ph idx [] = none
find_item list_ph idx ((k, v) ∷ kvs) =
    let rest = find_item list_ph idx kvs in
    if ends_with k (item_suffix list_ph) && ends_with v (le_bytes 8 idx) then some (k, v) else rest

-- the descriptor without the item at an index: it moves its head or else its tail
unfoldable pub shrink_list : ℕ → ListDesc → ListDesc
shrink_list idx list =
    let fewer = record list { num_items = wrapping_sub list.num_items 1 } in
    if list.head_idx == idx
    then record fewer { head_idx = wrapping_add list.head_idx 1 }
    else if list.tail_idx == wrapping_add idx 1
    then record fewer { tail_idx = wrapping_sub list.tail_idx 1 }
    else fewer

module _ {S : Type 0} (hash : Hasher) (config : InternalConfig) (hr : HashRoot S) where
  -- the hash of a list
  abbrev pub list_hash : Bytes → PartedHash
  list_hash list_key = parted_hash hash (make_list_key list_key)

  -- `get_by_hash`
  unfoldable pub get_by_hash : PartedHash → Exec S (List KvPair)
  get_by_hash ph = hr.by_hash ph

  -- `_insert_to_list` on an item that exists: the value is written with the index that it had
  unfoldable pub overwrite_item : Bytes → Bytes → Bytes → Exec S InsertToListStatus
  overwrite_item item_key val existing_val = do
    idx ← index_bytes existing_val
    replace_raw hash config hr.root item_key (val ++ idx) none
    pure (item_replaced (without_index existing_val))

  -- the expected value is compared with the index
  abbrev pub overwrite_if : Bytes → Bytes → Bytes → Bytes → Exec S InsertToListStatus
  overwrite_if item_key val existing_val expected_val = do
    idx ← index_bytes existing_val
    (if bytes_eq expected_val idx
        then overwrite_item item_key val existing_val
        else pure (item_wrong_value (without_index existing_val)))

  abbrev pub update_item : Bytes → Bytes → Bytes → InsertMode → Exec S InsertToListStatus
  update_item item_key val existing_val get_or_create =
      pure (item_existing_value (without_index existing_val))
  update_item item_key val existing_val (replace (some expected_val)) =
      overwrite_if item_key val existing_val expected_val
  update_item item_key val existing_val (replace none) = overwrite_item item_key val existing_val
  update_item item_key val existing_val set = overwrite_item item_key val existing_val

  -- the index of a new item
  unfoldable pub append_idx : Bytes → GetOrCreateStatus → Exec S ℕ
  append_idx list_key (created_new v) = pure first_list_idx
  append_idx list_key (existing_value list_bytes) = do
    list ← from_queue_bytes list_bytes
    set_raw hash config hr.root (make_list_key list_key) (bytes_of_queue (push_at tail list).1)
    pure list.tail_idx

  -- the list is created or extended, then the chain, then the item
  unfoldable pub create_item : Bytes → Bytes → Bytes → Exec S InsertToListStatus
  create_item list_key item_key val = do
    res ← get_or_create_raw hash config hr.root (make_list_key list_key) (bytes_of_queue one_item)
    idx ← append_idx list_key res
    set_raw hash config hr.root (chain_key (list_hash list_key) idx)
        (le_bytes 8 (parted_hash hash (make_item_key (list_hash list_key) item_key)))
    set_raw hash config hr.root (make_item_key (list_hash list_key) item_key)
        (val ++ le_bytes 8 idx)
    pure (created val)

  abbrev pub insert_new : Bytes → Bytes → Bytes → InsertMode → Exec S InsertToListStatus
  insert_new list_key item_key val set = create_item list_key item_key val
  insert_new list_key item_key val get_or_create = create_item list_key item_key val
  insert_new list_key item_key val (replace expected_val) = pure item_does_not_exist

  -- `_insert_to_list`
  unfoldable pub insert_to_list : Bytes → Bytes → Bytes → InsertMode → Exec S InsertToListStatus
  insert_to_list list_key item_key val mode = do
    found ← get_raw hash config hr.root (make_item_key (list_hash list_key) item_key)
    elim found [
      | none ↦ insert_new list_key item_key val mode
      | some existing_val ↦
          update_item (make_item_key (list_hash list_key) item_key) val existing_val mode
    ]

  unfoldable pub owned_get_from_list : Bytes → Bytes → Exec S (Option Bytes)
  owned_get_from_list list_key item_key = do
    found ← get_raw hash config hr.root (make_item_key (list_hash list_key) item_key)
    elim found [ none ↦ pure none | some val ↦ pure (some (without_index val)) ]

  -- a changed descriptor is written back, or removed if no index is left
  unfoldable pub store_list : Bytes → ListDesc → Exec S (Unit {0})
  store_list list_key list =
      if is_empty list
      then (do remove_raw hash config hr.root (make_list_key list_key); pure tt)
      else (do set_raw hash config hr.root (make_list_key list_key) (bytes_of_queue list); pure tt)

  unfoldable pub update_list : Bytes → ℕ → Option Bytes → Exec S (Unit {0})
  update_list list_key idx none = pure tt
  update_list list_key idx (some list_bytes) = do
    list ← from_queue_bytes list_bytes
    store_list list_key (shrink_list idx list)

  unfoldable pub owned_remove_from_list : Bytes → Bytes → Exec S (Option Bytes)
  owned_remove_from_list list_key item_key = do
    found ← get_raw hash config hr.root (make_item_key (list_hash list_key) item_key)
    elim found [
      | none ↦ pure none
      | some existing_val ↦ do
        idx ← index_bytes existing_val
        list_bytes ← get_raw hash config hr.root (make_list_key list_key)
        update_list list_key (of_le_bytes idx) list_bytes
        remove_raw hash config hr.root (chain_key (list_hash list_key) (of_le_bytes idx))
        remove_raw hash config hr.root (make_item_key (list_hash list_key) item_key)
        pure (some (without_index existing_val))
    ]

  -- `from_bytes::<PartedHash>`, which panics if the size is another
  abbrev pub from_hash_bytes : Bytes → Exec S PartedHash
  from_hash_bytes bs = if length bs == 8 then pure (of_le_bytes bs) else fail panicked

  -- `get_from_list_at_index`, with the full key and value
  unfoldable pub get_from_list_at_index : PartedHash → ℕ → Exec S (Option (PartedHash × KvPair))
  get_from_list_at_index list_ph idx = do
    found ← get_raw hash config hr.root (chain_key list_ph idx)
    elim found [
      | none ↦ pure none
      | some item_ph_bytes ↦ do
        item_ph ← from_hash_bytes item_ph_bytes
        kvs ← get_by_hash item_ph
        elim (find_item list_ph idx kvs) [ none ↦ pure none | some kv ↦ pure (some (item_ph, kv)) ]
    ]

  -- the results of the calls that insert; what the source calls unreachable panics
  abbrev pub set_in_list_status : InsertToListStatus → Exec S SetStatus
  set_in_list_status (created v) = pure set_created_new
  set_in_list_status (item_replaced v) = pure (set_prev_value v)
  set_in_list_status item_does_not_exist = fail panicked
  set_in_list_status (item_wrong_value v) = fail panicked
  set_in_list_status (item_existing_value v) = fail panicked

  abbrev pub replace_in_list_status : InsertToListStatus → Exec S ReplaceStatus
  replace_in_list_status item_does_not_exist = pure does_not_exist
  replace_in_list_status (item_replaced v) = pure (prev_value v)
  replace_in_list_status (item_wrong_value v) = pure (wrong_value v)
  replace_in_list_status (created v) = fail panicked
  replace_in_list_status (item_existing_value v) = fail panicked

  abbrev pub create_in_list_status : InsertToListStatus → Exec S GetOrCreateStatus
  create_in_list_status (item_existing_value v) = pure (existing_value v)
  create_in_list_status (created v) = pure (created_new v)
  create_in_list_status item_does_not_exist = fail panicked
  create_in_list_status (item_wrong_value v) = fail panicked
  create_in_list_status (item_replaced v) = fail panicked

  -- the lock is taken for the removal, and again for the insertion
  unfoldable pub owned_set_in_list : Bytes → Bytes → Bytes → Bool → Exec S SetStatus
  owned_set_in_list list_key item_key val false = do
    status ← insert_to_list list_key item_key val set
    set_in_list_status status
  owned_set_in_list list_key item_key val true = do
    owned_remove_from_list list_key item_key
    status ← insert_to_list list_key item_key val set
    set_in_list_status status

  unfoldable pub owned_replace_in_list : Bytes → Bytes → Bytes → Option Bytes → Exec S ReplaceStatus
  owned_replace_in_list list_key item_key val expected_val = do
    status ← insert_to_list list_key item_key val (replace expected_val)
    replace_in_list_status status

  unfoldable pub owned_get_or_create_in_list : Bytes → Bytes → Bytes → Exec S GetOrCreateStatus
  owned_get_or_create_in_list list_key item_key default_val = do
    status ← insert_to_list list_key item_key default_val get_or_create
    create_in_list_status status
