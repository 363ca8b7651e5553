-- ===== src/Queue.antt =====
-- src/queues.rs: queues over the store's calls on full keys. A queue is a descriptor under its own
-- key, and an item under a key for each index. The lock of a queue makes each call atomic; every
-- number is a `u64`, and `usize` is as wide.
pub mod Walk
pub mod Keys
pub mod Cells
pub mod Calls
pub mod Contents
pub mod Push
pub mod Ends
pub mod Settled
pub mod Next
pub mod Peek
pub mod Extend
pub mod Pop
pub mod Discard
pub mod Drop
pub mod Remove
pub mod Only
use candystore.Base.{
  ℕ, zero, suc, ◌+◌, ◌-◌, ◌^◌, Bool, true, false, Option, none, some, [], ◌∷◌, ◌++◌, ltb, ◌==◌,
  if◌then◌else◌,
}
use candystore.Base.Bytes.{Bytes, length, take, drop}
use candystore.Base.Word.{le_bytes, of_le_bytes, wrapping_add, wrapping_sub}
use candystore.Base.Outcome.{Exec, pure, fail, panicked, out_of_fuel, ◌>>=◌, ◌>>◌}
use candystore.Hashing.{Hasher}
use candystore.Shard.Mmap.{InternalConfig}
use candystore.Store.{
  Root, GetOrCreateStatus, created_new, existing_value, get_raw, set_raw, remove_raw,
  get_or_create_raw,
}

pub record Queue : Type 0 where
  pub head_idx : ℕ
  pub tail_idx : ℕ
  pub num_items : ℕ

abbrev pub is_empty : Queue → Bool
is_empty d = d.head_idx == d.tail_idx

-- `bytes_of(&queue)`, and `from_bytes`, which panics if the size is another
unfoldable pub bytes_of_queue : Queue → Bytes
bytes_of_queue d = le_bytes 8 d.head_idx ++ (le_bytes 8 d.tail_idx ++ le_bytes 8 d.num_items)

unfoldable pub queue_of_bytes : Bytes → Queue
queue_of_bytes bs = record {
  head_idx = of_le_bytes (take 8 bs);
  tail_idx = of_le_bytes (take 8 (drop 8 bs));
  num_items = of_le_bytes (take 8 (drop 16 bs));
}

unfoldable pub from_queue_bytes : {S : Type 0} → Bytes → Exec S Queue
from_queue_bytes bs = if length bs == 24 then pure (queue_of_bytes bs) else fail panicked

pub data QueuePos : Type 0 where
  head : QueuePos
  tail : QueuePos

abbrev pub first_queue_idx : ℕ
first_queue_idx = 0x8000_0000_0000_0000

-- `make_queue_key`, without the hash that selects the lock
abbrev pub make_queue_key : Bytes → Bytes
make_queue_key queue_key = queue_key ++ (6 ∷ [])

abbrev pub make_queue_item_key : Bytes → ℕ → Bytes
make_queue_item_key queue_key idx = queue_key ++ (le_bytes 8 idx ++ (7 ∷ []))

-- the index of a new item, and the queue with room for it
unfoldable pub push_at : QueuePos → Queue → ℕ × Queue
push_at head d =
    let idx = wrapping_sub d.head_idx 1 in
    (idx, record d { head_idx = idx; num_items = wrapping_add d.num_items 1 })
push_at tail d = (
  d.tail_idx,
  record d { tail_idx = wrapping_add d.tail_idx 1; num_items = wrapping_add d.num_items 1 },
)

-- the index that a round of popping looks at, and the queue without it
unfoldable pub pop_at : QueuePos → Queue → ℕ × Queue
pop_at head d = (d.head_idx, record d { head_idx = wrapping_add d.head_idx 1 })
pop_at tail d = let idx = wrapping_sub d.tail_idx 1 in (idx, record d { tail_idx = idx })

-- the descriptor once the item at `idx` was removed
unfoldable pub drop_at : ℕ → Queue → Queue
drop_at idx d =
    let d₁ = if d.head_idx == idx then record d { head_idx = wrapping_add d.head_idx 1 } else d in
    let d₂ =
      if d₁.tail_idx == wrapping_add idx 1
      then record d₁ { tail_idx = wrapping_sub d₁.tail_idx 1 }
      else d₁ in
    record d₂ { num_items = wrapping_sub d₂.num_items 1 }

abbrev pub one_item : Queue
one_item = record { head_idx = first_queue_idx; tail_idx = first_queue_idx + 1; num_items = 1 }

abbrev pub no_item : Queue
no_item = record { head_idx = first_queue_idx; tail_idx = first_queue_idx; num_items = 0 }

module _ {S : Type 0} (hash : Hasher) (config : InternalConfig) (root : Root S) where
  -- a changed descriptor is written back, or removed if no index is left
  unfoldable pub store_queue : Bytes → Queue → Exec S (Unit {0})
  store_queue queue_key d =
      if is_empty d
      then (do remove_raw hash config root (make_queue_key queue_key); pure tt)
      else (do set_raw hash config root (make_queue_key queue_key) (bytes_of_queue d); pure tt)

  -- the index of a pushed item
  unfoldable pub push_idx : Bytes → QueuePos → GetOrCreateStatus → Exec S ℕ
  push_idx queue_key pos (created_new v) = pure first_queue_idx
  push_idx queue_key pos (existing_value queue_bytes) = do
    d ← from_queue_bytes queue_bytes
    set_raw hash config root (make_queue_key queue_key) (bytes_of_queue (push_at pos d).1)
    pure (push_at pos d).0

  -- `_push_to_queue`
  unfoldable pub push_to_queue : Bytes → Bytes → QueuePos → Exec S ℕ
  push_to_queue queue_key val pos = do
    status ← get_or_create_raw hash config root (make_queue_key queue_key) (bytes_of_queue one_item)
    item_idx ← push_idx queue_key pos status
    set_raw hash config root (make_queue_item_key queue_key item_idx) val
    pure item_idx

  -- a round that removed an item is the last one
  abbrev pub item_or_more :
      QueuePos
      → Queue
      → Exec S (Option (ℕ × Bytes) × Queue)
      → Option Bytes
      → Exec S (Option (ℕ × Bytes) × Queue)
  item_or_more pos d more none = more
  item_or_more pos d more (some v) = pure (
    some ((pop_at pos d).0, v),
    record (pop_at pos d).1 { num_items = wrapping_sub d.num_items 1 },
  )

  -- the loop of `_pop_queue`: the item found, and the queue behind it
  unfoldable pub pop_loop : Bytes → QueuePos → ℕ → Queue → Exec S (Option (ℕ × Bytes) × Queue)
  pop_loop queue_key pos zero d = fail out_of_fuel
  pop_loop queue_key pos (suc fuel) d = elim (ltb d.head_idx d.tail_idx) [
    | false ↦ pure (none, d)
    | true ↦ do
      removed ← remove_raw hash config root (make_queue_item_key queue_key (pop_at pos d).0)
      item_or_more pos d (pop_loop queue_key pos fuel (pop_at pos d).1) removed
  ]

  -- `_pop_queue`: one round for each index, and one to see that none is left
  unfoldable pub pop_queue : Bytes → QueuePos → Exec S (Option (ℕ × Bytes))
  pop_queue queue_key pos = do
    found ← get_raw hash config root (make_queue_key queue_key)
    elim found [
      | none ↦ pure none
      | some queue_bytes ↦ do
        d ← from_queue_bytes queue_bytes
        popped ← pop_loop queue_key pos (d.tail_idx - d.head_idx + 1) d
        store_queue queue_key popped.1
        pure popped.0
    ]

  -- the end of `remove_from_queue`
  unfoldable pub shrink_queue : Bytes → ℕ → Option Bytes → Exec S (Unit {0})
  shrink_queue queue_key idx none = pure tt
  shrink_queue queue_key idx (some queue_bytes) = do
    d ← from_queue_bytes queue_bytes
    store_queue queue_key (drop_at idx d)

  unfoldable pub remove_from_queue : Bytes → ℕ → Exec S (Option Bytes)
  remove_from_queue queue_key idx = do
    removed ← remove_raw hash config root (make_queue_item_key queue_key idx)
    elim removed [
      | none ↦ pure none
      | some val ↦ do
        found ← get_raw hash config root (make_queue_key queue_key)
        shrink_queue queue_key idx found
        pure (some val)
    ]

  -- `for i in lo..lo + n`
  unfoldable pub discard_items : Bytes → ℕ → ℕ → Exec S (Unit {0})
  discard_items queue_key zero lo = pure tt
  discard_items queue_key (suc n) lo = do
    remove_raw hash config root (make_queue_item_key queue_key lo)
    discard_items queue_key n (lo + 1)

  unfoldable pub discard_queue : Bytes → Exec S Bool
  discard_queue queue_key = do
    found ← get_raw hash config root (make_queue_key queue_key)
    elim found [
      | none ↦ pure false
      | some queue_bytes ↦ do
        d ← from_queue_bytes queue_bytes
        discard_items queue_key (d.tail_idx - d.head_idx) d.head_idx
        remove_raw hash config root (make_queue_key queue_key)
        pure true
    ]
