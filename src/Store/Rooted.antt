-- ===== src/Store/Rooted.antt =====
-- The tree of shards as the root of the store: it keeps the contract of a map as long as it has
-- room for the insertions to come.
use candystore.Base.{ℕ, suc, ◌+◌, ◌≤◌, ◌<◌, sym, ap, subst, ◌∙◌, Option, arith}
use candystore.Base.Bytes.{Bytes, length}
use candystore.Hashing.{Hasher, parted_hash, shard_selector}
use candystore.Shard.Mmap.{InternalConfig}
use candystore.Shard.Entry.{InsertMode, InsertStatus}
use candystore.Shard.{get, remove}
use candystore.Router.Tree.{ShardRouter, RouterState, shared_op, insert}
use candystore.Router.Tree.Model.{tree_view, TreeInv, Routes, Placed}
use candystore.Router.Tree.Laws.{Routes-get, Routes-remove}
use candystore.Router.Tree.Insert.{CanInsert, insert-Inserts}
use candystore.Store.{Root, max_total_key_size, max_total_value_size}
use candystore.Store.Raw.{View, IsMap}

-- an entry is within the limits
abbrev pub Small : InternalConfig → Bytes → Bytes → Type 0
Small config k val =
    (length k ≤ max_total_key_size)
    × (length val ≤ max_total_value_size)
    × (length k + length val ≤ config.max_shard_size)

module _ (hash : Hasher) (config : InternalConfig) (dur fuel : ℕ) where
  -- `self.root.shared_op` and `self.root.insert`, as the store calls them; `fuel` bounds the rounds of
  -- an insertion
  abbrev pub tree_root : Root RouterState
  tree_root = record {
    get_in = λ ph k s. shared_op (shard_selector ph) (get ph k) s.node s.stats;
    remove_in = λ ph k s. shared_op (shard_selector ph) (remove ph k) s.node s.stats;
    insert_in = λ ph k val mode s. insert hash config dur fuel ph k val mode s.node s.stats;
  }

  -- the trees behind any removals, and `n` insertions between them
  pub data Later : ℕ → ShardRouter → ShardRouter → Type 0 where
    here : {node : ShardRouter} → Later 0 node node
    removed :
        {n : ℕ} {node node' last : ShardRouter} (k : Bytes) (x : Option Bytes)
        → Routes
            (shared_op (shard_selector (parted_hash hash k)) (remove (parted_hash hash k) k))
            node
            x
            node'
        → Later n node' last
        → Later n node last
    inserted :
        {n : ℕ} {node node' last : ShardRouter} (k val : Bytes) (mode : InsertMode)
        (x : InsertStatus)
        → Small config k val
        → Routes (insert hash config dur fuel (parted_hash hash k) k val mode) node x node'
        → Later n node' last
        → Later (suc n) node last

  -- the next `n` insertions, whatever they are, and whatever is removed between them, take no more
  -- rounds than there is fuel
  abbrev pub HasRoom : ℕ → ShardRouter → Type 0
  HasRoom n node =
      (m : ℕ) (last : ShardRouter)
      → m < n
      → Later m node last
      → (k val : Bytes) → Small config k val
      → CanInsert hash config dur k val fuel last

  abbrev pub tree_states : View RouterState
  tree_states = record {
    Valid = λ n s. TreeInv hash s.node × Placed hash s.node × HasRoom n s.node;
    map = λ s. tree_view hash s.node;
  }

  -- The tree of shards keeps the contract of a map: from every valid tree a lookup and a removal, and
  -- from every valid tree that has room for it an insertion within the limits, raise no error, tell
  -- what the map has under the key, change the map under this key only, and leave a valid tree; a
  -- lookup and a removal keep the room for further insertions, an insertion takes one of it.
  pub tree_root-IsMap : IsMap hash config tree_root tree_states
  tree_root-IsMap = record {
    gets = λ s (inv, placed, room) k.
        let r = (Routes-get hash k s.node inv).at s.stats in
        record {
          result = r.0;
          valid = (
            subst (TreeInv hash) (sym r.1) inv,
            subst (Placed hash) (sym r.1) placed,
            subst (HasRoom _) (sym r.1) room,
          );
          map = λ q. ap (λ node. tree_view hash node q) r.1;
        };
    removes = λ s (inv, placed, room) k.
        let (node', routes, changes) = Routes-remove hash k s.node inv in
        let r = routes.at s.stats in
        record {
          result = r.0;
          valid = (
            subst (TreeInv hash) (sym r.1) changes.inv,
            subst (Placed hash) (sym r.1) (changes.placed placed),
            subst (HasRoom _) (sym r.1)
                (λ m last lt later. room m last lt (removed k _ routes later)),
          );
          map = λ q. ap (λ node. tree_view hash node q) r.1 ∙ changes.view q;
        };
    inserts = λ s (inv, placed, room) k val mode key_fits val_fits entry_fits.
        let small : Small config k val = (key_fits, val_fits, entry_fits) in
        let i =
          insert-Inserts hash config dur k val mode fuel
            (room 0 s.node (omega arith) here k val small) inv (omega arith) in
        let r = i.routes.at s.stats in
        record {
          result = r.0;
          valid = (
            subst (TreeInv hash) (sym r.1) i.changes.inv,
            subst (Placed hash) (sym r.1) (i.changes.placed placed),
            subst (HasRoom _) (sym r.1) (λ m last lt later.
                room (suc m) last (omega arith) (inserted k val mode _ small i.routes later)),
          );
          map = λ q. ap (λ node. tree_view hash node q) r.1 ∙ i.changes.view q;
        };
  }
