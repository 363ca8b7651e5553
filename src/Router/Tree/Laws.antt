-- ===== src/Router/Tree/Laws.antt =====
-- Lookups and removals in the tree of shards.
use candystore.Base.{ℕ, ◌≡◌, refl, ap, true, false, none, ltb, Bool-cases, inl, inr}
use candystore.Base.Bytes.{Bytes}
use candystore.Base.Outcome.{Exec}
use candystore.Hashing.{Hasher, parted_hash, shard_selector}
use candystore.Shard.{Shard, ShardState, get, remove}
use candystore.Shard.Acts.{Acts}
use candystore.Shard.Laws.{Acts-get, Acts-remove}
use candystore.Shard.Steps.{remove-Healthy}
use candystore.Router.Tree.{ShardRouter, leaf, vertex, span_end, shared_op}
use candystore.Router.Tree.Model.{
  tree_view, TreeInv, Routes, Changes, leaf-Changes, bottom-Changes, top-Changes,
}

module _ {A : Type 0} (selector : ℕ) (func : Exec ShardState A) {x : A} {lo hi : ℕ} where
  pub shared_op-leaf :
      {sh sh' : Shard}
      → Acts func sh x sh'
      → Routes (shared_op selector func) (leaf lo hi sh) x (leaf lo hi sh')
  unfolding shared_op
  shared_op-leaf {sh} acts = record {
    at = λ stats.
        let (result, left) = acts.at (record { shard = sh; stats = stats }) refl in
        (result, ap (leaf lo hi) left);
  }

  pub shared_op-bottom :
      {bottom bottom' top : ShardRouter}
      → ltb selector (span_end bottom) ≡ true
      → Routes (shared_op selector func) bottom x bottom'
      → Routes (shared_op selector func) (vertex lo hi bottom top) x (vertex lo hi bottom' top)
  unfolding shared_op
  shared_op-bottom {top = top} e r = record {
    at = λ stats. rw (e, shared_op) ((r.at stats).0, ap (λ n. vertex lo hi n top) (r.at stats).1);
  }

  pub shared_op-top :
      {bottom top top' : ShardRouter}
      → ltb selector (span_end bottom) ≡ false
      → Routes (shared_op selector func) top x top'
      → Routes (shared_op selector func) (vertex lo hi bottom top) x (vertex lo hi bottom top')
  unfolding shared_op
  shared_op-top {bottom = bottom} e r = record {
    at = λ stats. rw (e, shared_op) ((r.at stats).0, ap (vertex lo hi bottom) (r.at stats).1);
  }

module _ (hash : Hasher) (key : Bytes) where
  abbrev selector_of : ℕ
  selector_of = shard_selector (parted_hash hash key)

  -- From a valid tree, a lookup that is routed by the key's shard selector returns the value under
  -- the key, without an error, and leaves the tree as it was.
  pub Routes-get :
      (node : ShardRouter)
      → TreeInv hash node
      → Routes
          (shared_op selector_of (get (parted_hash hash key) key))
          node
          (tree_view hash node key)
          node
  unfolding tree_view
  Routes-get (leaf lo hi sh) (inv, h) =
      shared_op-leaf selector_of (get (parted_hash hash key) key) (Acts-get inv key)
  Routes-get (vertex lo hi bottom top) (ib, it) =
      elim (Bool-cases (ltb selector_of (span_end bottom))) [
        | inl e ↦
            rw e (
              shared_op-bottom selector_of (get (parted_hash hash key) key) e
                (Routes-get bottom ib))
        | inr e ↦
            rw e (shared_op-top selector_of (get (parted_hash hash key) key) e (Routes-get top it))
      ]

  -- From a valid tree, a removal that is routed by the key's shard selector returns the value under
  -- the key, without an error, and leaves a valid tree that has nothing under the key and is the
  -- same under every other key.
  pub Routes-remove :
      (node : ShardRouter)
      → TreeInv hash node
      → (node' : ShardRouter) × Routes
          (shared_op selector_of (remove (parted_hash hash key) key))
          node
          (tree_view hash node key)
          node'
        × Changes hash key none node node'
  unfolding tree_view
  Routes-remove (leaf lo hi sh) (inv, h) =
      let (sh', acts, u) = Acts-remove inv key in
      (
        leaf lo hi sh',
        shared_op-leaf selector_of (remove (parted_hash hash key) key) acts,
        leaf-Changes u (remove-Healthy hash key acts h),
      )
  Routes-remove (vertex lo hi bottom top) (ib, it) =
      elim (Bool-cases (ltb selector_of (span_end bottom))) [
        | inl e ↦
            let (bottom', r, c) = Routes-remove bottom ib in
            (
              vertex lo hi bottom' top,
              rw e (shared_op-bottom selector_of (remove (parted_hash hash key) key) e r),
              bottom-Changes e it c,
            )
        | inr e ↦
            let (top', r, c) = Routes-remove top it in
            (
              vertex lo hi bottom top',
              rw e (shared_op-top selector_of (remove (parted_hash hash key) key) e r),
              top-Changes e ib c,
            )
      ]
