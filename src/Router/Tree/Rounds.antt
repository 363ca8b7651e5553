-- ===== src/Router/Tree/Rounds.antt =====
-- One round of an insertion into the tree of shards.
use candystore.Base.{
  ℕ, suc, ◌+◌, ◌≡◌, refl, sym, ap, ◌∙◌, Bool, true, false, Option, none, some, ltb, Bool-cases, inl,
  inr, ◌⊎◌,
}
use candystore.Base.Bytes.{Bytes, length, bytes_eq}
use candystore.Base.Outcome.{Result, ok}
use candystore.Hashing.{Hasher, parted_hash, shard_selector}
use candystore.Stats.{InternalStats}
use candystore.Shard.Mmap.{InternalConfig}
use candystore.Shard.Mmap.Extends.{Room}
use candystore.Shard.Entry.{
  InsertMode, InsertStatus, set, replace, get_or_create, admit, go_on, split_needed,
}
use candystore.Shard.Entry.Spec.{spec_status, spec_value, row_status, row_value, row-some}
use candystore.Shard.{Shard, ShardState, active, split, is_some}
use candystore.Shard
use candystore.Shard.Model.{view}
use candystore.Shard.Acts.{Acts}
use candystore.Shard.Laws.{row_of, Acts-insert}
use candystore.Shard.Steps.{full}
use candystore.Router.Tree.{
  ShardRouter, leaf, vertex, leaf_of, Call, span_end, insert, needs_split, settled, retried,
  put_leaf, put_bottom, put_top, RouterState,
}
use candystore.Router.Tree.Model.{
  tree_view, TreeInv, Routes, Changes, leaf-Changes, bottom-Changes, top-Changes,
}

-- the row of the key has a free cell, or has the key
abbrev pub HasCell : Hasher → Shard → Bytes → Type 0
HasCell hash sh key = (full hash sh key ≡ false) ⊎ ((old : Bytes) × (view hash sh key ≡ some old))

no_split : (mode : InsertMode) (o : Option Bytes) → needs_split (spec_status mode o) ≡ false
no_split set none = refl
no_split set (some old) = refl
no_split (replace e) none = refl
no_split (replace none) (some old) = refl
no_split (replace (some e)) (some old) = elim (Bool-cases (bytes_eq e old)) [
  | inl same ↦ rw same refl
  | inr other ↦ rw other refl
]
no_split get_or_create none = refl
no_split get_or_create (some old) = refl

row-HasCell :
    (f : Bool) (val : Bytes) (mode : InsertMode) (o : Option Bytes)
    → (f ≡ false) ⊎ ((old : Bytes) × (o ≡ some old))
    → (row_status f mode o ≡ spec_status mode o) × (row_value f mode val o ≡ spec_value mode val o)
row-HasCell f val mode o (inl e) = rw e (refl, refl)
row-HasCell f val mode o (inr (old, e)) = rw e (row-some f val mode old)

-- what an insertion returns and leaves
pub record Inserts (hash : Hasher) (call : Call InsertStatus) (key val : Bytes) (mode : InsertMode)
    (node : ShardRouter) : Type 0 where
  pub left : ShardRouter
  pub routes : Routes call node (spec_status mode (tree_view hash node key)) left
  pub changes : Changes hash key (spec_value mode val (tree_view hash node key)) node left

settled_ok :
    (hash : Hasher) (config : InternalConfig) (dur lo hi : ℕ) (again : Call InsertStatus)
    (r : Result InsertStatus × ShardState) (status : InsertStatus)
    → needs_split status ≡ false
    → r.0 ≡ ok status
    → settled hash config dur lo hi again r ≡ (ok status, put_leaf lo hi r.1)
settled_ok hash config dur lo hi again r status no_need e =
    ap (λ x. settled hash config dur lo hi again (x, r.1)) e ∙ done
  where
    done : settled hash config dur lo hi again (ok status, r.1) ≡ (ok status, put_leaf lo hi r.1)
    done = rw (no_need, settled) refl

retried_ok :
    (hash : Hasher) (config : InternalConfig) (dur : ℕ) (again : Call InsertStatus)
    (x : Result InsertStatus) (s : RouterState) (status : InsertStatus)
    → needs_split status ≡ false
    → x ≡ ok status
    → retried hash config dur again (x, s) ≡ (ok status, s)
retried_ok hash config dur again x s status no_need e =
    ap (λ x. retried hash config dur again (x, s)) e ∙ done
  where
    done : retried hash config dur again (ok status, s) ≡ (ok status, s)
    done = rw (no_need, retried) refl

module _ (hash : Hasher) (config : InternalConfig) (dur : ℕ) (key val : Bytes)
    (mode : InsertMode) where
  abbrev pub call : ℕ → Call InsertStatus
  call fuel = insert hash config dur fuel (parted_hash hash key) key val mode

  pub Inserts-leaf :
      (fuel lo hi : ℕ) (sh : Shard) (should : Option ℕ)
      → TreeInv hash (leaf lo hi sh)
      → HasCell hash sh key
      → Room (active sh (row_of hash key)) key val
      → admit config (is_some sh.target) (active sh (row_of hash key)) (length key + length val)
        ≡ go_on should
      → Inserts hash (call (suc fuel)) key val mode (leaf lo hi sh)
  unfolding insert tree_view
  Inserts-leaf fuel lo hi sh should (inv, h) cell room e =
      let (sh', acts, u, h', g, due) = Acts-insert inv key config val mode should h room e in
      let (status, value) = row-HasCell (full hash sh key) val mode (view hash sh key) cell in
      record {
        left = leaf lo hi sh';
        routes = record {
          at = λ stats.
              let (result, after) = acts.at (record { shard = sh; stats = stats }) refl in
              let runs =
                settled_ok hash config dur lo hi (call fuel)
                  (Shard.insert config (parted_hash hash key) key val mode
                    (record { shard = sh; stats = stats }))
                  (spec_status mode (view hash sh key)) (no_split mode (view hash sh key))
                  (result ∙ ap ok status) in
              (ap (λ r. r.0) runs, ap (λ r. r.1.node) runs ∙ ap (leaf lo hi) after);
        };
        changes = rw (sym value) (leaf-Changes u h');
      }

  bottom_round :
      (fuel lo hi : ℕ) (bottom top : ShardRouter)
      → ltb (shard_selector (parted_hash hash key)) (span_end bottom) ≡ true
      → (stats : InternalStats)
      → call (suc fuel) (vertex lo hi bottom top) stats
        ≡ retried hash config dur
            (call fuel)
            ((call fuel bottom stats).0, put_bottom lo hi top (call fuel bottom stats).1)
  unfolding insert
  bottom_round fuel lo hi bottom top e stats = rw (e, insert) refl

  top_round :
      (fuel lo hi : ℕ) (bottom top : ShardRouter)
      → ltb (shard_selector (parted_hash hash key)) (span_end bottom) ≡ false
      → (stats : InternalStats)
      → call (suc fuel) (vertex lo hi bottom top) stats
        ≡ retried hash config dur
            (call fuel)
            ((call fuel top stats).0, put_top lo hi bottom (call fuel top stats).1)
  unfolding insert
  top_round fuel lo hi bottom top e stats = rw (e, insert) refl

  pub Inserts-bottom :
      (fuel lo hi : ℕ) (bottom top : ShardRouter)
      → ltb (shard_selector (parted_hash hash key)) (span_end bottom) ≡ true
      → TreeInv hash top
      → Inserts hash (call fuel) key val mode bottom
      → Inserts hash (call (suc fuel)) key val mode (vertex lo hi bottom top)
  unfolding insert tree_view
  Inserts-bottom fuel lo hi bottom top e inv i = record {
    left = vertex lo hi i.left top;
    routes = record {
      at = λ stats.
          let (result, after) = i.routes.at stats in
          let runs =
            bottom_round fuel lo hi bottom top e stats
            ∙ retried_ok hash config dur (call fuel) _
                (put_bottom lo hi top (call fuel bottom stats).1)
                (spec_status mode (tree_view hash bottom key))
                (no_split mode (tree_view hash bottom key)) result in
          rw e (ap (λ r. r.0) runs, ap (λ r. r.1.node) runs ∙ ap (λ n. vertex lo hi n top) after);
    };
    changes = rw e (bottom-Changes e inv i.changes);
  }

  pub Inserts-top :
      (fuel lo hi : ℕ) (bottom top : ShardRouter)
      → ltb (shard_selector (parted_hash hash key)) (span_end bottom) ≡ false
      → TreeInv hash bottom
      → Inserts hash (call fuel) key val mode top
      → Inserts hash (call (suc fuel)) key val mode (vertex lo hi bottom top)
  unfolding insert tree_view
  Inserts-top fuel lo hi bottom top e inv i = record {
    left = vertex lo hi bottom i.left;
    routes = record {
      at = λ stats.
          let (result, after) = i.routes.at stats in
          let runs =
            top_round fuel lo hi bottom top e stats
            ∙ retried_ok hash config dur (call fuel) _
                (put_top lo hi bottom (call fuel top stats).1)
                (spec_status mode (tree_view hash top key)) (no_split mode (tree_view hash top key))
                result in
          rw e (ap (λ r. r.0) runs, ap (λ r. r.1.node) runs ∙ ap (vertex lo hi bottom) after);
    };
    changes = rw e (top-Changes e inv i.changes);
  }

  -- a refused insertion, and the split that follows it
  pub refused_round :
      (fuel lo hi : ℕ) (sh : Shard) (shards : Shard × Shard) (sh' : Shard) {x : InsertStatus}
      {left : ShardRouter}
      → Acts (Shard.insert config (parted_hash hash key) key val mode) sh split_needed sh
      → Acts (split hash config dur) sh shards sh'
      → Routes (call fuel) (vertex lo hi (leaf_of shards.0) (leaf_of shards.1)) x left
      → Routes (call (suc fuel)) (leaf lo hi sh) x left
  unfolding insert
  refused_round fuel lo hi sh shards sh' refused acts again = record {
    at = λ stats.
        let (result, same) = refused.at (record { shard = sh; stats = stats }) refl in
        let (halves, after) =
          acts.at
            (Shard.insert config (parted_hash hash key) key val mode
              (record { shard = sh; stats = stats })).1
            same in
        rw (result, halves) (again.at _);
  }
