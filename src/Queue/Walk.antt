-- ===== src/Queue/Walk.antt =====
-- src/queues.rs: iteration, peeking, the length and the range of a queue, and `extend_queue`.
use candystore.Base.{
  ℕ, zero, suc, ◌+◌, ◌-◌, Bool, true, false, Option, none, some, List, [], ◌∷◌, ltb,
}
use candystore.Base.Bytes.{Bytes}
use candystore.Base.Word.{wrapping_add}
use candystore.Base.Outcome.{Exec, pure, fail, out_of_fuel, ◌>>=◌, ◌>>◌}
use candystore.Hashing.{Hasher}
use candystore.Shard.Mmap.{InternalConfig}
use candystore.Store.{
  Root, GetOrCreateStatus, created_new, existing_value, get_raw, set_raw, get_or_create_raw,
}
use candystore.Queue.{
  Queue, from_queue_bytes, bytes_of_queue, make_queue_key, make_queue_item_key, no_item,
  first_queue_idx,
}

-- a range of indices that an iterator has still to go over
abbrev pub Span : Type 0
Span = ℕ × ℕ

-- `Range::next` and `Range::next_back`, for a range that is not empty
unfoldable pub next_idx : Bool → Span → ℕ × Span
next_idx true (lo, hi) = (lo, (lo + 1, hi))
next_idx false (lo, hi) = (hi - 1, (lo, hi - 1))

-- `GetOrCreateStatus::value`
abbrev pub status_value : GetOrCreateStatus → Bytes
status_value (created_new v) = v
status_value (existing_value v) = v

abbrev pub second : Option (ℕ × Bytes) → Option Bytes
second none = none
second (some (idx, v)) = some v

module _ {S : Type 0} (hash : Hasher) (config : InternalConfig) (root : Root S) where
  unfoldable pub fetch_queue : Bytes → Exec S (Option Queue)
  fetch_queue queue_key = do
    found ← get_raw hash config root (make_queue_key queue_key)
    elim found [
      | none ↦ pure none
      | some queue_bytes ↦ do d ← from_queue_bytes queue_bytes; pure (some d)
    ]

  -- a round that finds an item is the last one
  abbrev pub seen_or_more :
      Bool
      → Span
      → Exec S (Option (ℕ × Bytes) × Span)
      → Option Bytes
      → Exec S (Option (ℕ × Bytes) × Span)
  seen_or_more fwd range more none = more
  seen_or_more fwd range more (some v) =
      pure (some ((next_idx fwd range).0, v), (next_idx fwd range).1)

  -- the loop of `QueueIterator::next`: holes are skipped
  unfoldable pub next_item : Bytes → Bool → ℕ → Span → Exec S (Option (ℕ × Bytes) × Span)
  next_item queue_key fwd zero range = fail out_of_fuel
  next_item queue_key fwd (suc fuel) range = elim (ltb range.0 range.1) [
    | false ↦ pure (none, range)
    | true ↦ do
      found ← get_raw hash config root (make_queue_item_key queue_key (next_idx fwd range).0)
      seen_or_more fwd range (next_item queue_key fwd fuel (next_idx fwd range).1) found
  ]

  abbrev pub in_range : Bytes → Bool → Span → Exec S (Option (ℕ × Bytes) × Option Span)
  in_range queue_key fwd range = do
    step ← next_item queue_key fwd (range.1 - range.0 + 1) range
    pure (step.0, some step.1)

  -- `QueueIterator::next`: the range is that of the queue at the first call
  unfoldable pub next : Bytes → Bool → Option Span → Exec S (Option (ℕ × Bytes) × Option Span)
  next queue_key fwd none = do
    queue ← fetch_queue queue_key
    elim queue [
      | none ↦ pure (none, none)
      | some d ↦ in_range queue_key fwd (d.head_idx, d.tail_idx)
    ]
  next queue_key fwd (some range) = in_range queue_key fwd range

  -- `peek_queue_head_with_idx` forwards, `peek_queue_tail_with_idx` backwards
  unfoldable pub peek_with_idx : Bytes → Bool → Exec S (Option (ℕ × Bytes))
  peek_with_idx queue_key fwd = do step ← next queue_key fwd none; pure step.0

  -- `peek_queue_head` forwards, `peek_queue_tail` backwards
  unfoldable pub peek : Bytes → Bool → Exec S (Option Bytes)
  peek queue_key fwd = do step ← next queue_key fwd none; pure (second step.0)

  unfoldable pub queue_len : Bytes → Exec S ℕ
  queue_len queue_key = do
    queue ← fetch_queue queue_key
    elim queue [ none ↦ pure 0 | some d ↦ pure d.num_items ]

  unfoldable pub queue_range : Bytes → Exec S Span
  queue_range queue_key = do
    queue ← fetch_queue queue_key
    elim queue [
      | none ↦ pure (first_queue_idx, first_queue_idx)
      | some d ↦ pure (d.head_idx, d.tail_idx)
    ]

  -- the loop of `extend_queue`
  unfoldable pub extend_items : Bytes → List Bytes → Queue → Exec S Queue
  extend_items queue_key [] d = pure d
  extend_items queue_key (item ∷ items) d = do
    set_raw hash config root (make_queue_item_key queue_key d.tail_idx) item
    extend_items queue_key items
        (record d { tail_idx = wrapping_add d.tail_idx 1; num_items = wrapping_add d.num_items 1 })

  unfoldable pub extend_queue : Bytes → List Bytes → Exec S Span
  extend_queue queue_key items = do
    status ← get_or_create_raw hash config root (make_queue_key queue_key) (bytes_of_queue no_item)
    d ← from_queue_bytes (status_value status)
    left ← extend_items queue_key items d
    set_raw hash config root (make_queue_key queue_key) (bytes_of_queue left)
    pure (d.tail_idx, left.tail_idx)
