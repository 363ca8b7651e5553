-- ===== src/Lists/Retain.antt =====
-- src/lists.rs: `retain_in_list`, which takes each item off the list and puts back those to keep.
use candystore.Base.{ℕ, zero, suc, ◌+◌, ◌-◌, Bool, true, false, Option, none, some, ◌++◌}
use candystore.Base.Bytes.{Bytes}
use candystore.Base.Word.{le_bytes, wrapping_add, wrapping_sub}
use candystore.Base.Outcome.{Exec, pure, ◌>>=◌, ◌>>◌}
use candystore.Hashing.{Hasher, PartedHash}
use candystore.Shard.Mmap.{InternalConfig, KvPair}
use candystore.Store.{set_raw, remove_raw}
use candystore.Lists.{ListDesc, HashRoot, chain_key, list_hash, store_list, get_from_list_at_index}
use candystore.Lists.Walk.{truncated, fetch_list}

-- the head goes over an index
abbrev pub passed : ℕ → ListDesc → ListDesc
passed idx list = record list { head_idx = wrapping_add idx 1 }

module _ {S : Type 0} (hash : Hasher) (config : InternalConfig) (hr : HashRoot S)
    (func : Bytes → Bytes → Exec S Bool) where
  -- an item that the function keeps is put at the tail, another one is dropped
  unfoldable pub keep_or_drop : PartedHash → ListDesc → PartedHash → KvPair → Bool → Exec S ListDesc
  keep_or_drop list_ph list item_ph kv true = do
    set_raw hash config hr.root (chain_key list_ph list.tail_idx) (le_bytes 8 item_ph)
    set_raw hash config hr.root kv.0 ((truncated kv).1 ++ le_bytes 8 list.tail_idx)
    pure (record list { tail_idx = wrapping_add list.tail_idx 1 })
  keep_or_drop list_ph list item_ph kv false = do
    remove_raw hash config hr.root kv.0
    pure (record list { num_items = wrapping_sub list.num_items 1 })

  abbrev pub retain_found :
      PartedHash → ℕ → ListDesc → Option (PartedHash × KvPair) → Exec S ListDesc
  retain_found list_ph idx list none = pure list
  retain_found list_ph idx list (some found) = do
    remove_raw hash config hr.root (chain_key list_ph idx)
    kept ← func (truncated found.1).0 (truncated found.1).1
    keep_or_drop list_ph list found.0 found.1 kept

  -- the loop over the range that the list has at the call
  unfoldable pub retain_in_range : PartedHash → ℕ → ℕ → ListDesc → Exec S ListDesc
  retain_in_range list_ph zero lo list = pure list
  retain_in_range list_ph (suc n) lo list = do
    found ← get_from_list_at_index hash config hr list_ph lo
    more ← retain_found list_ph lo (passed lo list) found
    retain_in_range list_ph n (lo + 1) more

  -- `owned_retain_in_list`: the descriptor is written at the end
  unfoldable pub owned_retain_in_list : Bytes → Exec S (Unit {0})
  owned_retain_in_list list_key = do
    list ← fetch_list hash config hr list_key
    elim list [
      | none ↦ pure tt
      | some d ↦ do
        last ←
            retain_in_range (list_hash hash config hr list_key) (d.tail_idx - d.head_idx) d.head_idx
              d
        store_list hash config hr list_key last
    ]
