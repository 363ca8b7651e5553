-- ===== src/Router/Tree/Model.antt =====
-- The map that a tree of shards stands for, and its invariant.
use candystore.Base.{
  ℕ, ◌≡◌, refl, sym, ap, ◌∙◌, Bool, true, false, Option, some, ltb, ◌⊎◌, if◌then◌else◌, Bool-cases,
  inl, inr,
}
use candystore.Base.Bytes.{Bytes, bytes_eq, bytes_eq_iff}
use candystore.Base.Outcome.{ok}
use candystore.Hashing.{Hasher, parted_hash, shard_selector}
use candystore.Stats.{InternalStats}
use candystore.Shard.{Shard}
use candystore.Shard.Model.{view, ShardInv}
use candystore.Shard.Compaction.{Healthy}
use candystore.Shard.Laws.{Updates}
use candystore.Router.Tree.{ShardRouter, leaf, vertex, Call, span_end}
use mathlib.Core.Bool.{false≢true}

-- the value under a key: that of the shard that the key's selector leads to
unfoldable pub tree_view : Hasher → ShardRouter → Bytes → Option Bytes
tree_view hash (leaf lo hi sh) q = view hash sh q
tree_view hash (vertex lo hi bottom top) q =
    let below = tree_view hash bottom q in
    let above = tree_view hash top q in
    if ltb (shard_selector (parted_hash hash q)) (span_end bottom) then below else above

-- every shard is valid, and its compactions have not failed
abbrev pub TreeInv : Hasher → ShardRouter → Type 0
TreeInv hash (leaf lo hi sh) = ShardInv hash sh × Healthy sh.handle sh.target
TreeInv hash (vertex lo hi bottom top) = TreeInv hash bottom × TreeInv hash top

-- some shard of the tree has a value under the key
abbrev pub InTree : Hasher → ShardRouter → Bytes → Type 0
InTree hash (leaf lo hi sh) q = (w : Bytes) × (view hash sh q ≡ some w)
InTree hash (vertex lo hi bottom top) q = InTree hash bottom q ⊎ InTree hash top q

-- the key is routed to the bottom, or to the top
abbrev pub Side : Hasher → ShardRouter → ShardRouter → Bool → Type 0
Side hash bottom node b =
    (q : Bytes)
    → InTree hash node q
    → ltb (shard_selector (parted_hash hash q)) (span_end bottom) ≡ b

-- every key stands in the shard that its selector leads to
abbrev pub Placed : Hasher → ShardRouter → Type 0
Placed hash (leaf lo hi sh) = Unit
Placed hash (vertex lo hi bottom top) =
    Placed hash bottom × Placed hash top × Side hash bottom bottom true × Side hash bottom top false

pub view-InTree :
    (hash : Hasher) (node : ShardRouter) (q w : Bytes)
    → tree_view hash node q ≡ some w
    → InTree hash node q
unfolding tree_view
view-InTree hash (leaf lo hi sh) q w e = (w, e)
view-InTree hash (vertex lo hi bottom top) q w e =
    elim (Bool-cases (ltb (shard_selector (parted_hash hash q)) (span_end bottom))) [
      | inl yes_low ↦ inl (view-InTree hash bottom q w (sym (rw yes_low refl) ∙ e))
      | inr no_low ↦ inr (view-InTree hash top q w (sym (rw no_low refl) ∙ e))
    ]

-- from the tree `node`, whatever the statistics are, `m` returns `x` without an error and leaves
-- the tree `node'`
pub record Routes {A : Type 0} (m : Call A) (node : ShardRouter) (x : A) (node' : ShardRouter)
    : Type 0 where
  pub at : (stats : InternalStats) → ((m node stats).0 ≡ ok x) × ((m node stats).1.node ≡ node')

-- a valid tree that has the value under the key, and is the same otherwise
pub record Changes (hash : Hasher) (key : Bytes) (o : Option Bytes) (node node' : ShardRouter)
    : Type 0 where
  pub inv : TreeInv hash node'
  pub end : span_end node' ≡ span_end node
  pub within : (q : Bytes) → InTree hash node' q → InTree hash node q ⊎ (q ≡ key)
  pub placed : Placed hash node → Placed hash node'
  pub view :
      (q : Bytes) → tree_view hash node' q ≡ (if bytes_eq q key then o else tree_view hash node q)

-- a key that is routed otherwise is another key
side :
    (hash : Hasher) (key q : Bytes) (end : ℕ) (b c : Bool)
    → ltb (shard_selector (parted_hash hash key)) end ≡ b
    → ltb (shard_selector (parted_hash hash q)) end ≡ c
    → (b ≡ c → ⊥)
    → bytes_eq q key ≡ false
side hash key q end b c eb ec ne = elim (Bool-cases (bytes_eq q key)) [
  | inr e ↦ e
  | inl e ↦ absurd (
      ne (
        sym eb
        ∙ ap (λ k. ltb (shard_selector (parted_hash hash k)) end) (sym ((bytes_eq_iff q key).0 e))
        ∙ ec))
]

module _ {hash : Hasher} {key : Bytes} {o : Option Bytes} where
  pub leaf-Changes :
      {lo hi : ℕ} {sh sh' : Shard}
      → Updates hash sh sh' key o
      → Healthy sh'.handle sh'.target
      → Changes hash key o (leaf lo hi sh) (leaf lo hi sh')
  unfolding tree_view
  leaf-Changes {sh = sh} u h = record {
    inv = (u.inv, h);
    end = refl;
    within = λ q (w, e). elim (Bool-cases (bytes_eq q key)) [
      | inl same ↦ inr ((bytes_eq_iff q key).0 same)
      | inr other ↦ inl (w, sym (u.view q ∙ ap (λ b. if b then o else view hash sh q) other) ∙ e)
    ];
    placed = λ p. p;
    view = u.view;
  }

  pub bottom-Changes :
      {lo hi : ℕ} {bottom top bottom' : ShardRouter}
      → ltb (shard_selector (parted_hash hash key)) (span_end bottom) ≡ true
      → TreeInv hash top
      → Changes hash key o bottom bottom'
      → Changes hash key o (vertex lo hi bottom top) (vertex lo hi bottom' top)
  unfolding tree_view
  bottom-Changes {bottom = bottom} {top} {bottom'} e inv c = record {
    inv = (c.inv, inv);
    end = refl;
    within = λ q i. elim i [
      | inl below ↦ elim (c.within q below) [ inl old ↦ inl (inl old) | inr same ↦ inr same ]
      | inr above ↦ inl (inr above)
    ];
    placed = λ (pb, pt, sb, st). (
      c.placed pb,
      pt,
      λ q i. ap (ltb (shard_selector (parted_hash hash q))) c.end ∙ elim (c.within q i) [
        | inl old ↦ sb q old
        | inr same ↦ ap (λ k. ltb (shard_selector (parted_hash hash k)) (span_end bottom)) same ∙ e
      ],
      λ q i. ap (ltb (shard_selector (parted_hash hash q))) c.end ∙ st q i,
    );
    view = λ q. elim (Bool-cases (ltb (shard_selector (parted_hash hash q)) (span_end bottom))) [
      | inl yes_low ↦ rw (c.end, yes_low) (c.view q)
      | inr no_low ↦
          rw
            (
              c.end,
              no_low,
              side hash key q (span_end bottom) true false e no_low (λ p. false≢true (sym p)),
            )
            refl
    ];
  }

  pub top-Changes :
      {lo hi : ℕ} {bottom top top' : ShardRouter}
      → ltb (shard_selector (parted_hash hash key)) (span_end bottom) ≡ false
      → TreeInv hash bottom
      → Changes hash key o top top'
      → Changes hash key o (vertex lo hi bottom top) (vertex lo hi bottom top')
  unfolding tree_view
  top-Changes {bottom = bottom} {top} {top'} e inv c = record {
    inv = (inv, c.inv);
    end = refl;
    within = λ q i. elim i [
      | inl below ↦ inl (inl below)
      | inr above ↦ elim (c.within q above) [ inl old ↦ inl (inr old) | inr same ↦ inr same ]
    ];
    placed = λ (pb, pt, sb, st). (
      pb,
      c.placed pt,
      sb,
      λ q i. elim (c.within q i) [
        | inl old ↦ st q old
        | inr same ↦ ap (λ k. ltb (shard_selector (parted_hash hash k)) (span_end bottom)) same ∙ e
      ],
    );
    view = λ q. elim (Bool-cases (ltb (shard_selector (parted_hash hash q)) (span_end bottom))) [
      | inr no_low ↦ rw no_low (c.view q)
      | inl yes_low ↦
          rw (yes_low, side hash key q (span_end bottom) false true e yes_low false≢true) refl
    ];
  }
