-- ===== src/Tests/Tree.antt =====
-- Uses of the theorems on splitting a shard and on the tree of shards.
use candystore.Store.Iteration.{CandyStoreIterator, new, cookie, from_cookie, scan, next}
use candystore.Store.Iteration.Cookies.{from_cookie-cookie}
use candystore.Store.Rooted.{tree_states}
use candystore.Lists.Index.{IsHashMap}
use candystore.Lists.Rooted.{tree_hash_root, tree_root-IsHashMap}
use candystore.Shard.{read_at}
use candystore.Shard.Entry.{read_at_in_row}
use candystore.Shard.Mmap.{read_kv_if}
use candystore.Base.Outcome.{ok}
use candystore.Base.{some}
use candystore.Base.{
  ◌+◌, ◌^◌, ◌<◌, ◌≡◌, refl, sym, ap, subst, true, false, none, arith, [], ◌∷◌, inl,
}
use candystore.Base.Bytes.{Bytes, length, bytes_eq}
use candystore.Base.Search.{position}
use candystore.Base.Outcome.{◌>>=◌}
use candystore.Hashing.{parted_hash, from_hash, row_selector, shard_selector, signature, num_rows}
use candystore.Stats.{fresh_stats}
use candystore.Shard.Copy.{split_rows, split_cols}
use candystore.Shard.Copy.Prefix.{cells_size}
use candystore.Shard.Copy.SplitRows.{rows_size}
use candystore.Shard.{
  Shard, insert, get, remove, operate_on_row, split, wait_for_compaction, active, is_some,
}
use candystore.Shard.Mmap.{InternalConfig, create, place, read_kv}
use candystore.Shard.Mmap.Extends.{Room}
use candystore.Shard.Entry.{
  set, insert_in_row, admit, go_on, refuse, try_replace, overwrite, seek, add_entry_in,
}
use candystore.Shard.Entry.Spec.{row_status, row_value}
use candystore.Shard.Entry.Place.{is_full, is_full-some}
use candystore.Shard.Steps.{full}
use candystore.Base.{ltb, false}
use candystore.Shard.Row.{lookup, pack}
use candystore.Shard.Disk.{read_exact_at, write_all_at}
use candystore.Shard.Model.{view}
use candystore.Shard.Acts.{Acts}
use candystore.Shard.Compaction.{Healthy}
use candystore.Shard.Laws.{Updates, Acts-insert, row_of}
use candystore.Shard.Splitting.{Parted, Acts-split}
use candystore.Router.Tree.{ShardRouter, leaf, vertex, leaf_of, span_end, shared_op}
use candystore.Router.Tree.Model.{tree_view, TreeInv, Routes, Changes}
use candystore.Router.Tree.Laws.{Routes-get, Routes-remove}
use candystore.Router.Tree.Rounds.{Inserts, call}
use candystore.Router.Tree.Insert.{
  CanInsert, admitted, split_first, in_bottom, insert-Inserts, ok_value,
}
use candystore.Tests.{
  hash, config, key, other, val, empty_shard, empty-ShardInv, empty-Healthy, one, one-ShardInv,
  one-Healthy,
}

one_size : rows_size one.live num_rows 0 < 2 ^ 32
unfolding insert create parted_hash from_hash row_selector operate_on_row ◌>>=◌ seek lookup position
    insert_in_row admit try_replace signature add_entry_in place pack write_all_at cells_size
    rows_size
one_size = omega arith

one_target : one.target ≡ none
unfolding insert create parted_hash from_hash row_selector operate_on_row ◌>>=◌ seek lookup position
    insert_in_row admit try_replace signature add_entry_in place pack write_all_at
one_target = refl

one_handle : Healthy one.handle none
one_handle = subst (Healthy one.handle) one_target one-Healthy

Acts-split_example : Parted one-ShardInv one_target config 3
Acts-split_example = Acts-split one-ShardInv one_target config 3 one_handle one_size

-- a tree of two shards
abbrev tree : ShardRouter
tree = vertex 0 65536 (leaf 0 32768 one) (leaf 32768 65536 empty_shard)

tree-TreeInv : TreeInv hash tree
tree-TreeInv = ((one-ShardInv, one-Healthy), (empty-ShardInv, empty-Healthy))

Routes-get_example :
    Routes
      (shared_op (shard_selector (parted_hash hash key)) (get (parted_hash hash key) key))
      tree
      (tree_view hash tree key)
      tree
Routes-get_example = Routes-get hash key tree tree-TreeInv

Routes-remove_example :
    (node' : ShardRouter) × Routes
      (shared_op (shard_selector (parted_hash hash key)) (remove (parted_hash hash key) key))
      tree
      (tree_view hash tree key)
      node'
    × Changes hash key none tree node'
Routes-remove_example = Routes-remove hash key tree tree-TreeInv

abbrev newer : Bytes
newer = 4 ∷ 4 ∷ 4 ∷ []

-- a file that a second entry of the same key has filled
abbrev cramped : InternalConfig
cramped = record config { max_shard_size = 12 }

again-Room : Room (active one (row_of hash key)) key newer
unfolding insert create parted_hash from_hash row_selector operate_on_row ◌>>=◌ seek lookup position
    insert_in_row admit try_replace signature add_entry_in place pack write_all_at
again-Room = record { key_fits = omega arith; val_fits = omega arith; offset_fits = omega arith }

abbrev twice : Shard
twice =
    (insert config (parted_hash hash key) key newer set
      (record { shard = one; stats = fresh_stats })).1.shard

again_admitted :
    admit config (is_some one.target) (active one (row_of hash key)) (length key + length newer)
    ≡ go_on none
unfolding insert create parted_hash from_hash row_selector operate_on_row ◌>>=◌ seek lookup position
    insert_in_row admit try_replace overwrite signature add_entry_in place pack write_all_at read_kv
    read_exact_at bytes_eq
again_admitted = refl

again :
    (sh' : Shard) × Acts
      (insert config (parted_hash hash key) key newer set)
      one
      (row_status
        (is_full ((active one (row_of hash key)).rows (row_of hash key)))
        set
        (view hash one key))
      sh'
    × Updates hash one sh' key (
        row_value
          (is_full ((active one (row_of hash key)).rows (row_of hash key)))
          set
          newer
          (view hash one key))
    × Healthy sh'.handle sh'.target
again =
    let (sh', acts, u, h, g, due) =
      Acts-insert one-ShardInv key config newer set none one-Healthy again-Room again_admitted in
    (sh', acts, u, h)

twice-TreeInv : TreeInv hash (leaf 0 65536 twice)
twice-TreeInv =
    let (sh', acts, u, h) = again in
    subst (λ sh. TreeInv hash (leaf 0 65536 sh))
      (sym (acts.at (record { shard = one; stats = fresh_stats }) refl).1) (u.inv, h)

twice_target : twice.target ≡ none
unfolding insert create parted_hash from_hash row_selector operate_on_row ◌>>=◌ seek lookup position
    insert_in_row admit try_replace overwrite signature add_entry_in place pack write_all_at read_kv
    read_exact_at bytes_eq
twice_target = refl

twice_size : rows_size twice.live num_rows 0 < 2 ^ 32
unfolding insert create parted_hash from_hash row_selector operate_on_row ◌>>=◌ seek lookup position
    insert_in_row admit try_replace overwrite signature add_entry_in place pack write_all_at read_kv
    read_exact_at bytes_eq cells_size rows_size
twice_size = omega arith

twice_refused :
    admit cramped
      (is_some twice.target)
      (active twice (row_of hash other))
      (length other + length val)
    ≡ refuse
unfolding insert create parted_hash from_hash row_selector operate_on_row ◌>>=◌ seek lookup position
    insert_in_row admit try_replace overwrite signature add_entry_in place pack write_all_at read_kv
    read_exact_at bytes_eq
twice_refused = refl

-- what the split returns
abbrev halves : Shard × Shard
halves =
    ok_value (split hash cramped 3 (record { shard = twice; stats = fresh_stats })).0 (twice, twice)

halves-Acts : Acts (split hash cramped 3) twice halves (record twice { handle = none })
halves-Acts =
    let r =
      Acts-split twice-TreeInv.0 twice_target cramped 3
        (subst (Healthy twice.handle) twice_target twice-TreeInv.1) twice_size in
    subst (λ p. Acts (split hash cramped 3) twice p (record twice { handle = none }))
      (sym (
        ap (λ x. ok_value x (twice, twice))
          (r.acts.at (record { shard = twice; stats = fresh_stats }) refl).0))
      r.acts

split_admitted :
    admit cramped
      (is_some halves.0.target)
      (active halves.0 (row_of hash other))
      (length other + length val)
    ≡ go_on none
unfolding insert create parted_hash from_hash row_selector operate_on_row ◌>>=◌ seek lookup position
    insert_in_row admit try_replace overwrite signature add_entry_in place pack write_all_at read_kv
    read_exact_at bytes_eq split wait_for_compaction split_rows split_cols shard_selector
split_admitted = refl

goes_below : ltb (shard_selector (parted_hash hash other)) (span_end (leaf_of halves.0)) ≡ true
unfolding insert create parted_hash from_hash row_selector operate_on_row ◌>>=◌ seek lookup position
    insert_in_row admit try_replace overwrite signature add_entry_in place pack write_all_at read_kv
    read_exact_at bytes_eq split wait_for_compaction split_rows split_cols shard_selector
goes_below = refl

split_cell : full hash halves.0 other ≡ false
unfolding insert create parted_hash from_hash row_selector operate_on_row ◌>>=◌ seek lookup position
    insert_in_row admit try_replace overwrite signature add_entry_in place pack write_all_at read_kv
    read_exact_at bytes_eq split wait_for_compaction split_rows split_cols shard_selector
split_cell = is_full-some _ 1 refl

split-Room : Room (active halves.0 (row_of hash other)) other val
unfolding insert create parted_hash from_hash row_selector operate_on_row ◌>>=◌ seek lookup position
    insert_in_row admit try_replace overwrite signature add_entry_in place pack write_all_at read_kv
    read_exact_at bytes_eq split wait_for_compaction split_rows split_cols shard_selector
split-Room = record { key_fits = omega arith; val_fits = omega arith; offset_fits = omega arith }

twice_can : CanInsert hash cramped 3 other val 3 (leaf 0 65536 twice)
twice_can =
    split_first halves (record twice { handle = none }) twice_target twice_size twice_refused
      halves-Acts (in_bottom goes_below (admitted none (inl split_cell) split-Room split_admitted))

insert-Inserts_example :
    Inserts hash (call hash cramped 3 other val set 3) other val set (leaf 0 65536 twice)
insert-Inserts_example =
    insert-Inserts hash cramped 3 other val set 3 twice_can twice-TreeInv (omega arith)

-- an iterator over the tree finds the entry that was inserted
first_entry :
    (next 1 (new true true) (record { node = tree; stats = fresh_stats })).0
    ≡ ok (record (new true true) { row_idx = 1; entry_idx = 1 }, ok (some (key, val)))
unfolding insert create parted_hash from_hash row_selector operate_on_row ◌>>=◌ seek lookup position
    insert_in_row admit try_replace overwrite signature add_entry_in place pack write_all_at read_kv
    read_exact_at bytes_eq next scan shared_op read_at read_at_in_row read_kv_if
first_entry = refl

abbrev place_of : CandyStoreIterator
place_of = record (new false true) { shard_selector = 32768; row_idx = 63; entry_idx = 511 }

from_cookie-cookie_example : from_cookie (cookie place_of) false true ≡ place_of
from_cookie-cookie_example = from_cookie-cookie place_of (omega arith) (omega arith) (omega arith)

tree_root-IsHashMap_example :
    IsHashMap hash config (tree_hash_root hash config 3 9) (tree_states hash config 3 9)
tree_root-IsHashMap_example = tree_root-IsHashMap hash config 3 9
