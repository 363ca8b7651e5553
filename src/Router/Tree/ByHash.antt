-- ===== src/Router/Tree/ByHash.antt =====
-- `get_by_hash` through the tree: the entries of a hash of a key.
use candystore.Base.{
  ℕ, ◌≡◌, refl, sym, ap, subst, ◌∙◌, Option, some, List, ltb, Bool-cases, inl, inr,
}
use candystore.Base.Bytes.{Bytes}
use candystore.Hashing.{Hasher, parted_hash, row_selector, shard_selector}
use candystore.Hashing.Laws.{row_selector-lt}
use candystore.Shard.Mmap.{KvPair}
use candystore.Shard.Entry.Model.{view_row}
use candystore.Shard.Entry.ByHash.{Runs-get_by_hash_in_row}
use candystore.Shard.{Shard, active, get_by_hash}
use candystore.Shard.Acts.{Acts, Acts-operate, set_active-same}
use candystore.Shard.Model.{view, ShardInv, active-IsBacked}
use candystore.Shard.Laws.{row_of}
use candystore.Router.Tree.{ShardRouter, leaf, vertex, span_end, shared_op}
use candystore.Router.Tree.Model.{tree_view, TreeInv, Routes, Placed, view-InTree}
use candystore.Router.Tree.Laws.{shared_op-leaf, shared_op-bottom, shared_op-top}
use mathlib.Core.List.{Memᴰ}

-- all of `kvs` are in the map, and all entries of the hash of the key are in `kvs`
pub record Entries (hash : Hasher) (map : Bytes → Option Bytes) (key : Bytes) (kvs : List KvPair)
    : Type 0 where
  pub sound : (k w : Bytes) → Memᴰ (k, w) kvs → map k ≡ some w
  pub complete :
      (k w : Bytes) → parted_hash hash k ≡ parted_hash hash key → map k ≡ some w → Memᴰ (k, w) kvs

module _ (hash : Hasher) (key : Bytes) where
  Acts-get_by_hash :
      {sh : Shard}
      → ShardInv hash sh
      → (kvs : List KvPair) × Acts (get_by_hash (parted_hash hash key)) sh kvs sh
        × Entries hash (view hash sh) key kvs
  unfolding get_by_hash view
  Acts-get_by_hash {sh} v =
      let r = row_of hash key in
      let (kvs, runs, es) =
        Runs-get_by_hash_in_row (active-IsBacked v r)
          (v.rows r (row_selector-lt (parted_hash hash key))) key in
      (
        kvs,
        subst (Acts (get_by_hash (parted_hash hash key)) sh kvs) (set_active-same sh r)
            (Acts-operate r runs),
        record {
          sound = λ k w x.
              let (home, at) = es.sound k w x in
              ap (λ s. view_row (active sh s).file ((active sh s).rows s) k) home ∙ at;
          complete = λ k w same at. es.complete k w same (
              ap (λ s. view_row (active sh s).file ((active sh s).rows s) k)
                (sym (ap row_selector same))
              ∙ at);
        },
      )

  abbrev selector_of : ℕ
  selector_of = shard_selector (parted_hash hash key)

  -- From a valid tree whose keys stand where they are routed to, `get_by_hash` returns entries of
  -- the tree, all those of the hash among them, without an error, and leaves the tree as it was.
  pub Routes-get_by_hash :
      (node : ShardRouter)
      → TreeInv hash node
      → Placed hash node
      → (kvs : List KvPair) × Routes
          (shared_op selector_of (get_by_hash (parted_hash hash key)))
          node
          kvs
          node
        × Entries hash (tree_view hash node) key kvs
  unfolding tree_view
  Routes-get_by_hash (leaf lo hi sh) (inv, h) placed =
      let (kvs, acts, es) = Acts-get_by_hash inv in
      (kvs, shared_op-leaf selector_of (get_by_hash (parted_hash hash key)) acts, es)
  Routes-get_by_hash (vertex lo hi bottom top) (ib, it) (pb, pt, sb, st) =
      elim (Bool-cases (ltb selector_of (span_end bottom))) [
        | inl e ↦
            let (kvs, r, es) = Routes-get_by_hash bottom ib pb in
            (
              kvs,
              shared_op-bottom selector_of (get_by_hash (parted_hash hash key)) e r,
              record {
                sound = λ k w x.
                    let at = es.sound k w x in rw (sb k (view-InTree hash bottom k w at)) at;
                complete = λ k w same at. es.complete k w same (
                    sym (rw (ap (λ p. ltb (shard_selector p) (span_end bottom)) same ∙ e) refl)
                    ∙ at);
              },
            )
        | inr e ↦
            let (kvs, r, es) = Routes-get_by_hash top it pt in
            (
              kvs,
              shared_op-top selector_of (get_by_hash (parted_hash hash key)) e r,
              record {
                sound =
                    λ k w x. let at = es.sound k w x in rw (st k (view-InTree hash top k w at)) at;
                complete = λ k w same at. es.complete k w same (
                    sym (rw (ap (λ p. ltb (shard_selector p) (span_end bottom)) same ∙ e) refl)
                    ∙ at);
              },
            )
      ]
