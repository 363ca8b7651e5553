-- ===== src/Store.antt =====
-- src/store.rs: the operations on single keys. The tree of shards is an interface, `Root`, so the
-- store's own part stands alone: the checks of sizes, the user's namespace, the statuses.
pub mod Raw
pub mod Holds
pub mod Rooted
pub mod Laws
pub mod Limits
pub mod Big
pub mod Iteration
pub mod Chunks
pub mod BigReads
pub mod BigLaws
use candystore.Base.{
  ℕ, ◌+◌, ◌-◌, Bool, true, false, Option, none, some, List, [], ◌∷◌, ◌++◌, leb, ltb, if◌then◌else◌,
}
use candystore.Base.Bytes.{Bytes, length}
use candystore.Base.Outcome.{
  Exec, ok, err, pure, fail, key_too_long, value_too_long, entry_cannot_fit_in_shard, panicked,
  ◌>>=◌, ◌>>◌,
}
use candystore.Hashing.{Hasher, PartedHash, parted_hash}
use candystore.Shard.Mmap.{InternalConfig}
use candystore.Shard.Entry.{
  InsertStatus, added, replaced, key_does_not_exist, split_needed, already_exists, InsertMode, set,
  replace, get_or_create,
}

-- the limits of src/lib.rs
abbrev pub max_total_key_size : ℕ
max_total_key_size = 0x3fff

abbrev pub max_total_value_size : ℕ
max_total_value_size = 0xffff

abbrev pub max_key_size : ℕ
max_key_size = max_total_key_size - 0xff

abbrev pub max_value_size : ℕ
max_value_size = max_total_value_size - 0xff

-- `USER_NAMESPACE`
abbrev pub user_namespace : Bytes
user_namespace = 1 ∷ []

pub data ReplaceStatus : Type 0 where
  prev_value : Bytes → ReplaceStatus
  wrong_value : Bytes → ReplaceStatus
  does_not_exist : ReplaceStatus

pub data SetStatus : Type 0 where
  set_prev_value : Bytes → SetStatus
  set_created_new : SetStatus

pub data GetOrCreateStatus : Type 0 where
  existing_value : Bytes → GetOrCreateStatus
  created_new : Bytes → GetOrCreateStatus

-- what the store calls of the root of its shards
pub record Root (S : Type 0) : Type 0 where
  pub get_in : PartedHash → Bytes → Exec S (Option Bytes)
  pub remove_in : PartedHash → Bytes → Exec S (Option Bytes)
  pub insert_in : PartedHash → Bytes → Bytes → InsertMode → Exec S InsertStatus

-- `ensure_sizes`
unfoldable pub ensure_sizes : {S : Type 0} → Bytes → Bytes → Exec S (Unit {0})
ensure_sizes key val =
    if leb (length key) max_key_size
    then (if leb (length val) max_value_size then pure tt else fail (value_too_long (length val)))
    else fail (key_too_long (length key))

-- `make_user_key`
abbrev pub make_user_key : Bytes → Bytes
make_user_key key = key ++ user_namespace

-- the statuses of the operations; what the source calls unreachable panics
abbrev pub set_status : {S : Type 0} → InsertStatus → Exec S SetStatus
set_status added = pure set_created_new
set_status (replaced v) = pure (set_prev_value v)
set_status (already_exists v) = pure (set_prev_value v)
set_status key_does_not_exist = fail panicked
set_status split_needed = fail panicked

abbrev pub replace_status : {S : Type 0} → InsertStatus → Exec S ReplaceStatus
replace_status added = fail panicked
replace_status (replaced v) = pure (prev_value v)
replace_status (already_exists v) = pure (wrong_value v)
replace_status key_does_not_exist = pure does_not_exist
replace_status split_needed = fail panicked

abbrev pub get_or_create_status : {S : Type 0} → Bytes → InsertStatus → Exec S GetOrCreateStatus
get_or_create_status default_val added = pure (created_new default_val)
get_or_create_status default_val (already_exists v) = pure (existing_value v)
get_or_create_status default_val (replaced v) = fail panicked
get_or_create_status default_val key_does_not_exist = fail panicked
get_or_create_status default_val split_needed = fail panicked

module _ {S : Type 0} (hash : Hasher) (config : InternalConfig) (root : Root S) where
  -- `get_raw`, `remove_raw`
  unfoldable pub get_raw : Bytes → Exec S (Option Bytes)
  get_raw full_key = root.get_in (parted_hash hash full_key) full_key

  unfoldable pub remove_raw : Bytes → Exec S (Option Bytes)
  remove_raw full_key = root.remove_in (parted_hash hash full_key) full_key

  -- `insert_internal`
  unfoldable pub insert_internal : Bytes → Bytes → InsertMode → Exec S InsertStatus
  insert_internal full_key val mode =
      if leb (length full_key) max_total_key_size
      then (if leb (length val) max_total_value_size
          then (if ltb config.max_shard_size (length full_key + length val)
              then fail
                  (entry_cannot_fit_in_shard (length full_key + length val) config.max_shard_size)
              else root.insert_in (parted_hash hash full_key) full_key val mode)
          else fail (value_too_long (length val)))
      else fail (key_too_long (length full_key))

  unfoldable pub set_raw : Bytes → Bytes → Exec S SetStatus
  set_raw full_key val = do status ← insert_internal full_key val set; set_status status

  unfoldable pub replace_raw : Bytes → Bytes → Option Bytes → Exec S ReplaceStatus
  replace_raw full_key val expected_val = do
    status ← insert_internal full_key val (replace expected_val)
    replace_status status

  unfoldable pub get_or_create_raw : Bytes → Bytes → Exec S GetOrCreateStatus
  get_or_create_raw full_key default_val = do
    status ← insert_internal full_key default_val get_or_create
    get_or_create_status default_val status

  -- `owned_get`, `owned_contains`, `owned_remove`, `owned_set`, `owned_replace`,
  -- `owned_get_or_create`
  unfoldable pub owned_get : Bytes → Exec S (Option Bytes)
  owned_get key = get_raw (make_user_key key)

  abbrev contained : Option Bytes → Bool
  contained none = false
  contained (some v) = true

  unfoldable pub owned_contains : Bytes → Exec S Bool
  owned_contains key = do found ← get_raw (make_user_key key); pure (contained found)

  unfoldable pub owned_remove : Bytes → Exec S (Option Bytes)
  owned_remove key = remove_raw (make_user_key key)

  unfoldable pub owned_set : Bytes → Bytes → Exec S SetStatus
  owned_set key val = do ensure_sizes key val; set_raw (make_user_key key) val

  unfoldable pub owned_replace : Bytes → Bytes → Option Bytes → Exec S ReplaceStatus
  owned_replace key val expected_val = do
    ensure_sizes key val
    replace_raw (make_user_key key) val expected_val

  unfoldable pub owned_get_or_create : Bytes → Bytes → Exec S GetOrCreateStatus
  owned_get_or_create key default_val = do
    ensure_sizes key default_val
    get_or_create_raw (make_user_key key) default_val
