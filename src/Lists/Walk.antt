-- ===== src/Lists/Walk.antt =====
-- src/lists.rs: what goes over the indices of a list: iteration, peeking, popping, discarding and
-- compaction.
use candystore.Base.{ℕ, zero, suc, ◌+◌, ◌-◌, Bool, true, false, Option, none, some, ◌++◌, ltb}
use candystore.Base.Bytes.{Bytes, length, take}
use candystore.Base.Word.{le_bytes, wrapping_add, wrapping_sub}
use candystore.Base.Outcome.{Exec, pure, fail, out_of_fuel, ◌>>=◌, ◌>>◌}
use candystore.Hashing.{Hasher, PartedHash}
use candystore.Shard.Mmap.{InternalConfig, KvPair}
use candystore.Store.{get_raw, set_raw, remove_raw}
use candystore.Queue.{from_queue_bytes}
use candystore.Queue.Walk.{Span, next_idx}
use candystore.Lists.{
  ListDesc, HashRoot, make_list_key, chain_key, without_index, list_hash, store_list,
  get_from_list_at_index,
}

-- a full key and value without the suffix and the index
abbrev pub truncated : KvPair → KvPair
truncated kv = (take (wrapping_sub (length kv.0) 9) kv.0, without_index kv.1)

-- the value with another index
abbrev pub with_index : ℕ → Bytes → Bytes
with_index idx v = without_index v ++ le_bytes 8 idx

-- the list behind an item that was popped
unfoldable pub popped_list : Bool → ℕ → ListDesc → ListDesc
popped_list true idx list = record list {
  head_idx = wrapping_add idx 1;
  num_items = wrapping_sub list.num_items 1;
}
popped_list false idx list = record list {
  tail_idx = wrapping_sub idx 1;
  num_items = wrapping_sub list.num_items 1;
}

module _ {S : Type 0} (hash : Hasher) (config : InternalConfig) (hr : HashRoot S) where
  unfoldable pub fetch_list : Bytes → Exec S (Option ListDesc)
  fetch_list list_key = do
    found ← get_raw hash config hr.root (make_list_key list_key)
    elim found [
      | none ↦ pure none
      | some list_bytes ↦ do list ← from_queue_bytes list_bytes; pure (some list)
    ]

  -- a round that finds an item is the last one
  abbrev pub item_or_next :
      Bool
      → Span
      → Exec S (Option KvPair × Span)
      → Option (PartedHash × KvPair)
      → Exec S (Option KvPair × Span)
  item_or_next fwd range more none = more
  item_or_next fwd range more (some found) = pure (some (truncated found.1), (next_idx fwd range).1)

  -- the loop of `ListIterator::next`: holes are skipped
  unfoldable pub next_in_list : PartedHash → Bool → ℕ → Span → Exec S (Option KvPair × Span)
  next_in_list list_ph fwd zero range = fail out_of_fuel
  next_in_list list_ph fwd (suc fuel) range = elim (ltb range.0 range.1) [
    | false ↦ pure (none, range)
    | true ↦ do
      found ← get_from_list_at_index hash config hr list_ph (next_idx fwd range).0
      item_or_next fwd range (next_in_list list_ph fwd fuel (next_idx fwd range).1) found
  ]

  abbrev pub in_list_range : Bytes → Bool → Span → Exec S (Option KvPair × Option Span)
  in_list_range list_key fwd range = do
    step ← next_in_list (list_hash hash config hr list_key) fwd (range.1 - range.0 + 1) range
    pure (step.0, some step.1)

  -- `ListIterator::next`: the range is that of the list at the first call
  unfoldable pub next : Bytes → Bool → Option Span → Exec S (Option KvPair × Option Span)
  next list_key fwd none = do
    list ← fetch_list list_key
    elim list [
      | none ↦ pure (none, none)
      | some d ↦ in_list_range list_key fwd (d.head_idx, d.tail_idx)
    ]
  next list_key fwd (some range) = in_list_range list_key fwd range

  -- `owned_peek_list_head` forwards, `owned_peek_list_tail` backwards
  unfoldable pub peek_list : Bytes → Bool → Exec S (Option KvPair)
  peek_list list_key fwd = do step ← next list_key fwd none; pure step.0

  unfoldable pub owned_list_len : Bytes → Exec S ℕ
  owned_list_len list_key = do
    list ← fetch_list list_key
    elim list [ none ↦ pure 0 | some d ↦ pure d.num_items ]

  -- the closure `pop` of `_owned_pop_list`, once it found an item
  unfoldable pub pop_found : Bytes → Bool → ListDesc → ℕ → KvPair → Exec S (Option KvPair)
  pop_found list_key fwd list idx kv = do
    store_list hash config hr list_key (popped_list fwd idx list)
    remove_raw hash config hr.root (chain_key (list_hash hash config hr list_key) idx)
    remove_raw hash config hr.root kv.0
    pure (some (truncated kv))

  abbrev pub pop_or_next :
      Bytes
      → Bool
      → ListDesc
      → ℕ
      → Exec S (Option KvPair)
      → Option (PartedHash × KvPair)
      → Exec S (Option KvPair)
  pop_or_next list_key fwd list idx more none = more
  pop_or_next list_key fwd list idx more (some found) = pop_found list_key fwd list idx found.1

  unfoldable pub pop_in_range : Bytes → Bool → ListDesc → ℕ → Span → Exec S (Option KvPair)
  pop_in_range list_key fwd list zero range = fail out_of_fuel
  pop_in_range list_key fwd list (suc fuel) range = elim (ltb range.0 range.1) [
    | false ↦ pure none
    | true ↦ do
      found ←
          get_from_list_at_index hash config hr (list_hash hash config hr list_key)
            (next_idx fwd range).0
      pop_or_next list_key fwd list (next_idx fwd range).0
          (pop_in_range list_key fwd list fuel (next_idx fwd range).1) found
  ]

  -- `_owned_pop_list`: forwards at the head, backwards at the tail
  unfoldable pub owned_pop_list : Bytes → Bool → Exec S (Option KvPair)
  owned_pop_list list_key fwd = do
    list ← fetch_list list_key
    elim list [
      | none ↦ pure none
      | some d ↦ pop_in_range list_key fwd d (d.tail_idx - d.head_idx + 1) (d.head_idx, d.tail_idx)
    ]

  -- one round of `owned_discard_list`
  abbrev pub discard_found : PartedHash → ℕ → Option (PartedHash × KvPair) → Exec S (Unit {0})
  discard_found list_ph idx none = pure tt
  discard_found list_ph idx (some found) = do
    remove_raw hash config hr.root (chain_key list_ph idx)
    remove_raw hash config hr.root found.1.0
    pure tt

  unfoldable pub discard_in_range : PartedHash → ℕ → ℕ → Exec S (Unit {0})
  discard_in_range list_ph zero lo = pure tt
  discard_in_range list_ph (suc n) lo = do
    found ← get_from_list_at_index hash config hr list_ph lo
    discard_found list_ph lo found
    discard_in_range list_ph n (lo + 1)

  unfoldable pub owned_discard_list : Bytes → Exec S Bool
  owned_discard_list list_key = do
    list ← fetch_list list_key
    elim list [
      | none ↦ pure false
      | some d ↦ do
        discard_in_range (list_hash hash config hr list_key) (d.tail_idx - d.head_idx) d.head_idx
        remove_raw hash config hr.root (make_list_key list_key)
        pure true
    ]

  -- one round of `compact_list_if_needed`: the next index that is free
  abbrev pub move_found : PartedHash → ℕ → ℕ → Option (PartedHash × KvPair) → Exec S ℕ
  move_found list_ph idx new_idx none = pure new_idx
  move_found list_ph idx new_idx (some found) = do
    set_raw hash config hr.root (chain_key list_ph new_idx) (le_bytes 8 found.0)
    set_raw hash config hr.root found.1.0 (with_index new_idx found.1.1)
    remove_raw hash config hr.root (chain_key list_ph idx)
    pure (wrapping_add new_idx 1)

  unfoldable pub move_in_range : PartedHash → ℕ → ℕ → ℕ → Exec S ℕ
  move_in_range list_ph zero lo new_idx = pure new_idx
  move_in_range list_ph (suc n) lo new_idx = do
    found ← get_from_list_at_index hash config hr list_ph lo
    moved ← move_found list_ph lo new_idx found
    move_in_range list_ph n (lo + 1) moved

  -- `compact_list_if_needed`; `worth` tests the span and the holes against the parameters, with a
  -- floating-point ratio
  unfoldable pub compact_list_if_needed : Bytes → (ℕ → ℕ → Bool) → Exec S Bool
  compact_list_if_needed list_key worth = do
    list ← fetch_list list_key
    elim list [
      | none ↦ pure false
      | some d ↦
          elim (worth (wrapping_sub d.tail_idx d.head_idx)
            (wrapping_sub (wrapping_sub d.tail_idx d.head_idx) d.num_items)) [
              | false ↦ pure false
              | true ↦ do
                new_idx ←
                    move_in_range (list_hash hash config hr list_key) (d.tail_idx - d.head_idx)
                      d.head_idx d.tail_idx
                store_list hash config hr list_key (record {
                  head_idx = d.tail_idx;
                  tail_idx = new_idx;
                  num_items = wrapping_sub new_idx d.tail_idx;
                })
                pure true
            ]
    ]
