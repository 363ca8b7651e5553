-- ===== src/Router/Tree.antt =====
-- src/router.rs: the tree of shards. A router is a span with a shard, or with two routers for the
-- halves of the span. The lock of a node makes its change atomic; the statistics stand beside the
-- tree.
pub mod Model
pub mod Laws
pub mod Rounds
pub mod Insert
pub mod ByHash
use candystore.Base.{ℕ, zero, suc, Bool, true, false, List, [], ◌∷◌, ◌++◌, ltb}
use candystore.Base.Bytes.{Bytes}
use candystore.Base.Outcome.{Result, ok, err, Exec, out_of_fuel}
use candystore.Hashing.{Hasher, PartedHash, shard_selector}
use candystore.Stats.{InternalStats}
use candystore.Shard.Mmap.{InternalConfig}
use candystore.Shard.Entry.{
  InsertMode, InsertStatus, split_needed, added, replaced, already_exists, key_does_not_exist,
}
use candystore.Shard.{Shard, ShardState, split}
use candystore.Shard

-- `ShardRouter` with its `ShardNode`: the span, from its start to its end, and what covers it
pub data ShardRouter : Type 0 where
  leaf : ℕ → ℕ → Shard → ShardRouter
  vertex : ℕ → ℕ → ShardRouter → ShardRouter → ShardRouter

pub record RouterState : Type 0 where
  pub node : ShardRouter
  pub stats : InternalStats

-- `span.end`
abbrev pub span_end : ShardRouter → ℕ
span_end (leaf lo hi sh) = hi
span_end (vertex lo hi bottom top) = hi

-- a call on a router, with the statistics
abbrev pub Call : Type 0 → Type 0
Call A = ShardRouter → InternalStats → Result A × RouterState

abbrev needs_split : InsertStatus → Bool
needs_split split_needed = true
needs_split added = false
needs_split (replaced v) = false
needs_split (already_exists v) = false
needs_split key_does_not_exist = false

abbrev pub put_leaf : ℕ → ℕ → ShardState → RouterState
put_leaf lo hi s = record { node = leaf lo hi s.shard; stats = s.stats }

abbrev pub put_bottom : ℕ → ℕ → ShardRouter → RouterState → RouterState
put_bottom lo hi top s = record { node = vertex lo hi s.node top; stats = s.stats }

abbrev pub put_top : ℕ → ℕ → ShardRouter → RouterState → RouterState
put_top lo hi bottom s = record { node = vertex lo hi bottom s.node; stats = s.stats }

-- a router over a new shard
abbrev pub leaf_of : Shard → ShardRouter
leaf_of sh = leaf sh.span_start sh.span_end sh

module _ {A : Type 0} where
  -- `shared_op`
  unfoldable pub shared_op : ℕ → Exec ShardState A → Call A
  shared_op selector func (leaf lo hi sh) stats =
      let r = func (record { shard = sh; stats = stats }) in (r.0, put_leaf lo hi r.1)
  shared_op selector func (vertex lo hi bottom top) stats = elim (ltb selector (span_end bottom)) [
    | true ↦ let r = shared_op selector func bottom stats in (r.0, put_bottom lo hi top r.1)
    | false ↦ let r = shared_op selector func top stats in (r.0, put_top lo hi bottom r.1)
  ]

  abbrev one_result : ℕ → ℕ → Result A × ShardState → Result (List A) × RouterState
  one_result lo hi (err e, s) = (err e, put_leaf lo hi s)
  one_result lo hi (ok x, s) = (ok (x ∷ []), put_leaf lo hi s)

  abbrev both_results :
      ℕ → ℕ → ShardRouter → List A → Result (List A) × RouterState → Result (List A) × RouterState
  both_results lo hi bottom xs (err e, s) = (err e, put_top lo hi bottom s)
  both_results lo hi bottom xs (ok ys, s) = (ok (xs ++ ys), put_top lo hi bottom s)

  abbrev then_top :
      ℕ
      → ℕ
      → ShardRouter
      → Call (List A)
      → Result (List A) × RouterState
      → Result (List A) × RouterState
  then_top lo hi top call (err e, s) = (err e, put_bottom lo hi top s)
  then_top lo hi top call (ok xs, s) = both_results lo hi s.node xs (call top s.stats)

  -- `call_on_all_shards`
  unfoldable pub call_on_all_shards : Exec ShardState A → Call (List A)
  call_on_all_shards func (leaf lo hi sh) stats =
      one_result lo hi (func (record { shard = sh; stats = stats }))
  call_on_all_shards func (vertex lo hi bottom top) stats =
      then_top lo hi top (λ node s. call_on_all_shards func top s)
        (call_on_all_shards func bottom stats)

-- the tree once a leaf was split, for the next round of the loop
abbrev pub halved :
    ℕ
    → ℕ
    → Call InsertStatus
    → Result (Shard × Shard) × ShardState
    → Result InsertStatus × RouterState
halved lo hi again (err e, s) = (err e, put_leaf lo hi s)
halved lo hi again (ok shards, s) =
    again (vertex lo hi (leaf_of shards.0) (leaf_of shards.1)) s.stats

module _ (hash : Hasher) (config : InternalConfig) (dur : ℕ) where
  -- what the loop makes of the answer of a shard: a leaf that needs it is split
  abbrev pub settled :
      ℕ
      → ℕ
      → Call InsertStatus
      → Result InsertStatus × ShardState
      → Result InsertStatus × RouterState
  settled lo hi again (err e, s) = (err e, put_leaf lo hi s)
  settled lo hi again (ok status, s) = elim (needs_split status) [
    | true ↦ halved lo hi again (split hash config dur s)
    | false ↦ (ok status, put_leaf lo hi s)
  ]

  -- and of the answer of a half: `continue`, if it needs a split
  abbrev pub retried :
      Call InsertStatus → Result InsertStatus × RouterState → Result InsertStatus × RouterState
  retried again (err e, s) = (err e, s)
  retried again (ok status, s) = elim (needs_split status) [
    | true ↦ again s.node s.stats
    | false ↦ (ok status, s)
  ]

  -- `ShardRouter::insert`; each round of its loop, and each way down the tree, takes fuel; `dur` is
  -- how long a split takes
  unfoldable pub insert : ℕ → PartedHash → Bytes → Bytes → InsertMode → Call InsertStatus
  insert zero ph full_key val mode node stats =
      (err out_of_fuel, record { node = node; stats = stats })
  insert (suc fuel) ph full_key val mode (leaf lo hi sh) stats =
      settled lo hi (insert fuel ph full_key val mode)
        (Shard.insert config ph full_key val mode (record { shard = sh; stats = stats }))
  insert (suc fuel) ph full_key val mode (vertex lo hi bottom top) stats =
      elim (ltb (shard_selector ph) (span_end bottom)) [
        | true ↦
            let r = insert fuel ph full_key val mode bottom stats in
            retried (insert fuel ph full_key val mode) (r.0, put_bottom lo hi top r.1)
        | false ↦
            let r = insert fuel ph full_key val mode top stats in
            retried (insert fuel ph full_key val mode) (r.0, put_top lo hi bottom r.1)
      ]
