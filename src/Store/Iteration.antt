-- ===== src/Store/Iteration.antt =====
-- Iteration over the entries of the store, and the cookies of src/store.rs.
pub mod Cookies
use candystore.Base.{
  ℕ, zero, suc, ◌+◌, ◌*◌, ◌/◌, ◌%◌, ◌^◌, ◌-◌, Bool, true, false, ◌&&◌, Option, none, some, ltb, leb,
  if◌then◌else◌,
}
use candystore.Base.Bytes.{Bytes, length, take, drop, bytes_eq}
use candystore.Base.Suffix.{ends_with}
use candystore.Base.Outcome.{Result, ok, err, Exec, out_of_fuel}
use candystore.Hashing.{num_rows, row_width}
use candystore.Stats.{InternalStats}
use candystore.Shard.Mmap.{KvPair}
use candystore.Shard.{ShardState, read_at}
use candystore.Store.{user_namespace}
use candystore.Router.Tree.{ShardRouter, RouterState, shared_op}
use Prim.Native.Nat.{bit_or}

pub record CandyStoreIterator : Type 0 where
  pub shard_selector : ℕ
  pub row_idx : ℕ
  pub entry_idx : ℕ
  pub raw : Bool
  pub include_val : Bool

-- `END_OF_SHARDS`
abbrev pub end_of_shards : ℕ
end_of_shards = 2 ^ 16

-- `CandyStoreIterator::new`
abbrev pub new : Bool → Bool → CandyStoreIterator
new raw include_val = record {
  shard_selector = 0;
  row_idx = 0;
  entry_idx = 0;
  raw = raw;
  include_val = include_val;
}

unfoldable pub cookie : CandyStoreIterator → ℕ
cookie it =
    bit_or (bit_or (it.shard_selector % 2 ^ 16 * 2 ^ 32) (it.row_idx % 2 ^ 16 * 2 ^ 16))
      (it.entry_idx % 2 ^ 16)

unfoldable pub from_cookie : ℕ → Bool → Bool → CandyStoreIterator
from_cookie c raw include_val = record {
  shard_selector = c / 2 ^ 32 % 2 ^ 16;
  row_idx = c / 2 ^ 16 % 2 ^ 16;
  entry_idx = c % 2 ^ 16;
  raw = raw;
  include_val = include_val;
}

-- the cell after the one that is read
abbrev pub advanced : CandyStoreIterator → CandyStoreIterator
advanced it =
    if leb row_width (it.entry_idx + 1)
    then record it { entry_idx = 0; row_idx = it.row_idx + 1 }
    else record it { entry_idx = it.entry_idx + 1 }

-- `k.ends_with(USER_NAMESPACE)`, and `k` without it
abbrev pub shown : Bool → KvPair → Option KvPair
shown true kv = some kv
shown false kv =
    if ends_with kv.0 user_namespace
    then some (take (length kv.0 - length user_namespace) kv.0, kv.1)
    else none

-- what the closure hands over: where the iterator stands, and an entry, or none, or an error
abbrev pub Found : Type 0
Found = CandyStoreIterator × Result (Option KvPair)

-- an entry that is not shown is passed over
abbrev pub found_or_more :
    CandyStoreIterator → Exec ShardState Found → Result (Option KvPair) → Exec ShardState Found
found_or_more it more (err e) s = (ok (it, err e), s)
found_or_more it more (ok none) s = more s
found_or_more it more (ok (some kv)) s = elim (shown it.raw kv) [
  | none ↦ more s
  | some shown_kv ↦ (ok (record it { shard_selector = s.shard.span_start }, ok (some shown_kv)), s)
]

-- the closure of `next` on one shard
unfoldable pub scan : ℕ → CandyStoreIterator → Exec ShardState Found
scan zero it s = (err out_of_fuel, s)
scan (suc fuel) it s = elim (ltb it.row_idx num_rows) [
  | false ↦
      (ok (record it { entry_idx = 0; row_idx = 0; shard_selector = s.shard.span_end }, ok none), s)
  | true ↦
      let read = read_at it.row_idx it.entry_idx it.include_val s in
      found_or_more (advanced it) (scan fuel (advanced it)) read.0 read.1
]

-- a shard without a further entry is left for the next one
abbrev pub entry_or_more :
    (CandyStoreIterator → RouterState → Result Found × RouterState)
    → Result Found × RouterState
    → Result Found × RouterState
entry_or_more more (err e, s) = (err e, s)
entry_or_more more (ok (it, err e), s) = (ok (it, err e), s)
entry_or_more more (ok (it, ok (some kv)), s) = (ok (it, ok (some kv)), s)
entry_or_more more (ok (it, ok none), s) = more it s

-- `CandyStoreIterator::next`; a shard takes a round for each of its cells and one more
unfoldable pub next : ℕ → CandyStoreIterator → RouterState → Result Found × RouterState
next zero it s = (err out_of_fuel, s)
next (suc fuel) it s = elim (ltb it.shard_selector end_of_shards) [
  | false ↦ (ok (it, ok none), s)
  | true ↦
      entry_or_more (λ it' s'. next fuel it' s')
        (shared_op it.shard_selector (scan (num_rows * row_width + 1) it) s.node s.stats)
]
