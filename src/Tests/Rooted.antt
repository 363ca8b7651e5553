-- ===== src/Tests/Rooted.antt =====
-- A tree that was just made has room for an insertion, so the store over it meets the contract.
use candystore.Base.{
  ℕ, ◌+◌, ◌≡◌, refl, sym, ap, subst, ◌∙◌, none, some, arith, inl, if◌then◌else◌, ltb_of_le,
}
use candystore.Base.Bytes.{Bytes, length}
use candystore.Base.Maps.{put}
use candystore.Base.Search.{position}
use candystore.Hashing.{parted_hash, shard_selector}
use candystore.Stats.{fresh_stats}
use candystore.Hashing.Laws.{row_selector-lt}
use candystore.Shard.Fresh.{new_shard-ShardInv}
use candystore.Shard.{remove, active, set_active}
use candystore.Shard.Mmap.{MmapFile}
use candystore.Shard.Row.{lookup}
use candystore.Shard.Mmap.{create}
use candystore.Shard.Entry.{admit, go_on, refuse}
use candystore.Shard.Entry.Model.{RowInv, cell_of, cell_of-none}
use candystore.Shard.Entry.Place.{is_full-some}
use candystore.Shard.Entry.Reads.{Runs-remove_in_row, freed}
use candystore.Shard.Acts.{Acts, Acts-operate, set_active-same}
use candystore.Shard.Model.{view, active-IsBacked}
use candystore.Shard.Laws.{row_of}
use candystore.Router.Tree.{ShardRouter, RouterState, leaf, shared_op}
use candystore.Router.Tree.Model.{tree_view, Routes}
use candystore.Router.Tree.Laws.{shared_op-leaf}
use candystore.Router.Tree.Insert.{CanInsert, admitted}
use candystore.Store.{owned_set, make_user_key}
use candystore.Store.Raw.{Gives, set_result}
use candystore.Store.Laws.{owned_set-Gives}
use candystore.Store.Rooted.{
  Small, Later, here, removed, inserted, tree_root, tree_states, tree_root-IsMap,
}
use candystore.Tests.{hash, config, key, val, empty_shard, empty-ShardInv, empty-Healthy}

abbrev new_tree : ShardRouter
new_tree = leaf 0 65536 empty_shard

abbrev row_file : Bytes → MmapFile
row_file k = active empty_shard (row_of hash k)

row_inv : (k : Bytes) → RowInv hash (row_file k) (row_of hash k) ((row_file k).rows (row_of hash k))
row_inv k = empty-ShardInv.rows (row_of hash k) (row_selector-lt (parted_hash hash k))

nothing : (k : Bytes) → cell_of (row_file k).file ((row_file k).rows (row_of hash k)) k ≡ none
unfolding view
nothing k = cell_of-none _ _ k ((new_shard-ShardInv hash config 0 65536).2 k)

-- a removal leaves the new tree alone
removes_nothing :
    (k : Bytes)
    → Routes
        (shared_op (shard_selector (parted_hash hash k)) (remove (parted_hash hash k) k))
        new_tree
        (view hash empty_shard k)
        new_tree
unfolding remove view
removes_nothing k =
    shared_op-leaf (shard_selector (parted_hash hash k)) (remove (parted_hash hash k) k) (
      subst (Acts (remove (parted_hash hash k) k) empty_shard (view hash empty_shard k))
        (ap
            (λ o.
              set_active empty_shard (row_of hash k)
                (freed (active-IsBacked empty-ShardInv (row_of hash k)) (row_inv k) k o))
            (nothing k)
          ∙ set_active-same empty_shard (row_of hash k))
        (Acts-operate (row_of hash k)
          (Runs-remove_in_row (active-IsBacked empty-ShardInv (row_of hash k)) (row_inv k) k)))

stays :
    {m : ℕ} {node last : ShardRouter}
    → m ≡ 0
    → node ≡ new_tree
    → Later hash config 3 9 m node last
    → last ≡ new_tree
stays zero_left e here = e
stays zero_left e (removed k x routes later) =
    stays zero_left
      (sym (routes.at fresh_stats).1
        ∙ ap
            (λ n.
              (shared_op (shard_selector (parted_hash hash k)) (remove (parted_hash hash k) k) n
                fresh_stats).1.node)
            e
        ∙ ((removes_nothing k).at fresh_stats).1)
      later
stays zero_left e (inserted k w mode x small routes later) = absurd (omega arith)

new_tree_can : (k w : Bytes) → Small config k w → CanInsert hash config 3 k w 9 new_tree
unfolding create lookup position admit
new_tree_can k w (key_fits, val_fits, entry_fits) =
    admitted none (inl (is_full-some ((row_file k).rows (row_of hash k)) 0 refl))
      (record {
        key_fits = omega (arith, key_fits);
        val_fits = omega (arith, val_fits);
        offset_fits = omega arith;
      })
      (ap (λ b. if b then refuse else go_on none)
        (ltb_of_le config.max_shard_size (0 + (length k + length w)) (omega (arith, entry_fits))))

abbrev new_state : RouterState
new_state = record { node = new_tree; stats = fresh_stats }

new_state-Valid : (tree_states hash config 3 9).Valid 1 new_state
new_state-Valid = (
  (empty-ShardInv, empty-Healthy),
  tt,
  λ m last lt later k w small.
      subst (CanInsert hash config 3 k w 9) (sym (stays (omega arith) refl later))
        (new_tree_can k w small),
)

owned_set-Gives_example :
    Gives
      (tree_states hash config 3 9)
      0
      (owned_set hash config (tree_root hash config 3 9) key val)
      new_state
      (set_result (tree_view hash new_tree (make_user_key key)))
      (put (make_user_key key) (some val) (tree_view hash new_tree))
owned_set-Gives_example =
    owned_set-Gives (tree_root-IsMap hash config 3 9) new_state new_state-Valid key val
      (omega arith) (omega arith) (omega arith)
