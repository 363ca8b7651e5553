-- ===== src/Lists/Rooted.antt =====
-- The tree of shards as the root of the lists: its `get_by_hash` keeps the contract, too.
use candystore.Base.{ℕ, sym, ap, subst}
use candystore.Hashing.{Hasher, shard_selector}
use candystore.Shard.Mmap.{InternalConfig}
use candystore.Shard.{get_by_hash}
use candystore.Router.Tree.{RouterState, shared_op}
use candystore.Router.Tree.Model.{tree_view, TreeInv, Placed}
use candystore.Router.Tree.ByHash.{Routes-get_by_hash}
use candystore.Store.Rooted.{HasRoom, tree_root, tree_states, tree_root-IsMap}
use candystore.Lists.{HashRoot}
use candystore.Lists.Index.{IsHashMap}

module _ (hash : Hasher) (config : InternalConfig) (dur fuel : ℕ) where
  -- the tree, and `self.root.shared_op` as `get_by_hash` of the store calls it
  abbrev pub tree_hash_root : HashRoot RouterState
  tree_hash_root = record {
    root = tree_root hash config dur fuel;
    by_hash = λ ph s. shared_op (shard_selector ph) (get_by_hash ph) s.node s.stats;
  }

  -- The tree of shards keeps the contract of a map and of `get_by_hash`: from every valid tree a
  -- lookup and a removal, and from every valid tree that has room for it an insertion within the
  -- limits, raise no error, tell what the map has under the key, change the map under this key only,
  -- and leave a valid tree; a lookup and a removal keep the room for further insertions, an insertion
  -- takes one of it. From every valid tree, `get_by_hash` at the hash of a key raises no error,
  -- changes nothing, and returns entries of the map, all those of the hash among them.
  pub tree_root-IsHashMap : IsHashMap hash config tree_hash_root (tree_states hash config dur fuel)
  tree_root-IsHashMap = record {
    law = tree_root-IsMap hash config dur fuel;
    by_hash = λ s (inv, placed, room) key.
        let (kvs, routes, es) = Routes-get_by_hash hash key s.node inv placed in
        let r = routes.at s.stats in
        record {
          kvs = kvs;
          gives = record {
            result = r.0;
            valid = (
              subst (TreeInv hash) (sym r.1) inv,
              subst (Placed hash) (sym r.1) placed,
              subst (HasRoom hash config dur fuel _) (sym r.1) room,
            );
            map = λ q. ap (λ node. tree_view hash node q) r.1;
          };
          sound = es.sound;
          complete = es.complete;
        };
  }
