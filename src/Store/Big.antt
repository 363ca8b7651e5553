-- ===== src/Store/Big.antt =====
-- Big items of src/store.rs: a value of any size as a queue of chunks, with its length at the end.
use candystore.Base.{
  ℕ, zero, suc, ◌+◌, ◌-◌, Bool, true, false, ◌&&◌, Option, none, some, List, [], ◌∷◌, ◌++◌, ◌==◌,
  if◌then◌else◌,
}
use candystore.Base.Bytes.{Bytes, length, take, drop}
use candystore.Base.Word.{le_bytes, of_le_bytes, wrapping_add}
use candystore.Base.Outcome.{Exec, pure, fail, out_of_fuel, ◌>>=◌, ◌>>◌}
use candystore.Hashing.{Hasher}
use candystore.Shard.Mmap.{InternalConfig}
use candystore.Store.{Root, max_value_size}
use candystore.Queue.{tail, discard_queue, push_to_queue}
use candystore.Queue.Walk.{Span, next, queue_range, extend_queue}

-- `chunks(size)`, where `size` is `suc k`; there are no more chunks than bytes
unfoldable pub chunks : ℕ → ℕ → Bytes → List Bytes
chunks size zero val = []
chunks size (suc fuel) [] = []
chunks size (suc fuel) (b ∷ bs) = take size (b ∷ bs) ∷ chunks size fuel (drop size (b ∷ bs))

-- the value once an element was seen, and whether it is the end of an item
unfoldable pub seen : ℕ → Bytes → ℕ × Bytes → Bool
seen end val (idx, chunk) =
    wrapping_add idx 1 == end && length chunk == 8 && of_le_bytes chunk == length val

unfoldable pub with_chunk : ℕ → Bytes → ℕ × Bytes → Bytes
with_chunk end val (idx, chunk) = if wrapping_add idx 1 == end then val else val ++ chunk

module _ {S : Type 0} (hash : Hasher) (config : InternalConfig) (root : Root S) where
  unfoldable pub set_big : Bytes → Bytes → Exec S Bool
  set_big key val = do
    existed ← discard_queue hash config root key
    extend_queue hash config root key (chunks max_value_size (length val) val)
    push_to_queue hash config root key (le_bytes 8 (length val)) tail
    pure existed

  -- the loop of `get_big`
  unfoldable pub get_chunks : Bytes → ℕ → ℕ → Option Span → Bytes → Exec S (Option Bytes)
  get_chunks key end zero range val = fail out_of_fuel
  get_chunks key end (suc fuel) range val = do
    step ← next hash config root key true range
    elim step.0 [
      | none ↦ pure none
      | some item ↦ elim (seen end val item) [
        | true ↦ pure (some val)
        | false ↦ get_chunks key end fuel step.1 (with_chunk end val item)
      ]
    ]

  -- one round for each index of the queue, and one to see that none is left
  unfoldable pub get_big : Bytes → Exec S (Option Bytes)
  get_big key = do
    range ← queue_range hash config root key
    get_chunks key range.1 (range.1 - range.0 + 1) none []

  unfoldable pub remove_big : Bytes → Exec S Bool
  remove_big key = discard_queue hash config root key
