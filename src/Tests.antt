-- ===== src/Tests.antt =====
-- Runs of the model on small stores, and uses of its theorems at concrete inputs.
mod Compaction
mod Words
mod Router
mod Store
mod Queue
mod Lists
mod Tree
mod Rooted
use candystore.Base.{
  ℕ, ◌+◌, ◌%◌, ◌/◌, ◌^◌, ◌≡◌, ◌≢◌, refl, sym, subst, true, false, none, some, [], ◌∷◌, arith,
  ltb_of_lt, ltb_of_le,
}
use candystore.Base.Bytes.{Bytes, bytes_eq, length}
use candystore.Base.Outcome.{ok, ◌>>=◌}
use candystore.Base.Search.{position}
use candystore.Shard.Disk.{read_exact_at, write_all_at}
use candystore.Shard.Row.{lookup, pack, key_len, val_len, file_offset}
use candystore.Shard.Row.Descriptor.{fields-pack}
use candystore.Hashing.Laws.{from_hash_parts}
use candystore.Stats.Cyclic.{CyclicArr, empty, push, clear, iter}
use candystore.Stats.Cyclic.Laws.{pushes, take_last, iter-pushes}
use candystore.Shard.Mmap.Runs.{Runs}
use candystore.Shard.Copy.{copy_cols}
use candystore.Shard.Copy.Laws.{Complete, Runs-copy_cols}
use candystore.Shard.Entry.Place.{is_full}
use candystore.Hashing.{
  Hash128, Hasher, parted_hash, from_hash, shard_selector, row_selector, signature, num_rows,
  row_width, invalid_sig,
}
use candystore.Stats.{fresh_stats}
use candystore.Shard.Mmap.{InternalConfig, MmapFile, create, place, read_kv}
use candystore.Shard.Mmap.Extends.{Room, IsBacked}
use candystore.Shard.Entry.{
  set, get_or_create, added, admit, go_on, refuse, insert_in_row, try_replace, seek, add_entry_in,
  get_in_row,
}
use candystore.Shard.Entry.Spec.{row_status, row_value}
use candystore.Shard.Model.{view, ShardInv}
use candystore.Shard.Acts.{Acts}
use candystore.Shard.Compaction.{started_if, Healthy, Keeps, Begins, begins}
use candystore.Shard.Compaction.Round.{Acts-compact_step, Acts-finish_compaction}
use candystore.Shard.Copy.Prefix.{cells_size, cells_size-le}
use candystore.Shard.Entry.Model.{RowInv}
use candystore.Base.Maps.{Map, put, no_keys}
use candystore.Shard.Steps.{Reach, fresh, next, full, Reach-get}
use candystore.Shard.Steps
use candystore.Base.{List}
use candystore.Store.{Root, owned_set, owned_replace, owned_get_or_create, make_user_key}
use candystore.Shard.Entry.Spec.{spec_status, spec_value}
use candystore.Base.Outcome.{err, entry_cannot_fit_in_shard}
use candystore.Shard.Entry.{replace}
use candystore.Router.{
  Range, consolidate_ranges, sort_ranges, insert_sorted, comes_first, sweep, lies_in,
}
use candystore.Router.Laws.{Consolidates, consolidate_ranges-Consolidates}
use candystore.Shard.Fresh.{new_shard-ShardInv}
use candystore.Shard.Laws.{Updates, Acts-get, Acts-remove, Acts-insert, row_of}
use candystore.Shard.{
  set_active, Shard, ShardState, running, serves, compact_step, finish_compaction, new_shard,
  active, insert, get, remove, is_some, operate_on_row,
}

-- every key falls into row 1, with the signature 7
abbrev hash : Hasher
hash key = record { h1 = 2 ^ 32 + 7; h2 = 0 }

abbrev config : InternalConfig
config = record {
  max_shard_size = 1000;
  min_compaction_threashold = 100;
  expected_number_of_keys = 0;
  max_concurrent_list_ops = 64;
  truncate_up = true;
}

abbrev key : Bytes
key = 1 ∷ 2 ∷ []

abbrev other : Bytes
other = 3 ∷ []

abbrev val : Bytes
val = 9 ∷ 8 ∷ 7 ∷ []

abbrev empty_shard : Shard
empty_shard = new_shard 0 65536 (create config)

abbrev before : ShardState
before = record { shard = empty_shard; stats = fresh_stats }

empty-ShardInv : ShardInv hash empty_shard
empty-ShardInv = (new_shard-ShardInv hash config 0 65536).0

empty-Healthy : Healthy empty_shard.handle empty_shard.target
unfolding Healthy
empty-Healthy = tt

room : Room (active empty_shard (row_of hash key)) key val
unfolding create
room = record { key_fits = omega arith; val_fits = omega arith; offset_fits = omega arith }

is_admitted :
    admit config
      (is_some empty_shard.target)
      (active empty_shard (row_of hash key))
      (length key + length val)
    ≡ go_on none
unfolding create admit
is_admitted = refl

insert_returns : (insert config (parted_hash hash key) key val set before).0 ≡ ok added
unfolding insert create parted_hash from_hash row_selector ◌>>=◌ operate_on_row insert_in_row admit
    try_replace seek lookup position signature add_entry_in place
insert_returns = refl

-- a shard with the value under the key
abbrev one : Shard
one = (insert config (parted_hash hash key) key val set before).1.shard

after_get :
    (get (parted_hash hash key) key (record { shard = one; stats = fresh_stats })).0 ≡ ok (some val)
unfolding insert create parted_hash from_hash row_selector get operate_on_row get_in_row ◌>>=◌ seek
    lookup position insert_in_row admit try_replace signature add_entry_in place read_kv
    read_exact_at pack write_all_at bytes_eq
after_get = refl

after_get-other :
    (get (parted_hash hash other) other (record { shard = one; stats = fresh_stats })).0 ≡ ok none
unfolding insert create parted_hash from_hash row_selector get operate_on_row get_in_row ◌>>=◌ seek
    lookup position insert_in_row admit try_replace signature add_entry_in place read_kv
    read_exact_at pack write_all_at bytes_eq
after_get-other = refl

inserted :
    (sh' : Shard) × Acts
      (insert config (parted_hash hash key) key val set)
      empty_shard
      (row_status
        (is_full ((active empty_shard (row_of hash key)).rows (row_of hash key)))
        set
        (view hash empty_shard key))
      sh'
    × Updates hash empty_shard sh' key (
        row_value
          (is_full ((active empty_shard (row_of hash key)).rows (row_of hash key)))
          set
          val
          (view hash empty_shard key))
    × Healthy sh'.handle sh'.target
inserted =
    let (sh', acts, u, h, g, due) =
      Acts-insert empty-ShardInv key config val set none empty-Healthy room is_admitted in
    (sh', acts, u, h)

one-ShardInv : ShardInv hash one
one-ShardInv =
    let (sh', acts, u, h) = inserted in subst (ShardInv hash) (sym (acts.at before refl).1) u.inv

one-Healthy : Healthy one.handle one.target
one-Healthy =
    let (sh', acts, u, h) = inserted in
    subst (λ sh. Healthy sh.handle sh.target) (sym (acts.at before refl).1) h

Acts-insert_example :
    (sh' : Shard) × Acts
      (insert config (parted_hash hash key) key val get_or_create)
      empty_shard
      (row_status
        (is_full ((active empty_shard (row_of hash key)).rows (row_of hash key)))
        get_or_create
        (view hash empty_shard key))
      sh'
    × Updates hash empty_shard sh' key (
        row_value
          (is_full ((active empty_shard (row_of hash key)).rows (row_of hash key)))
          get_or_create
          val
          (view hash empty_shard key))
    × Healthy sh'.handle sh'.target
    × (g : MmapFile) × (sh' ≡ started_if config none (set_active empty_shard (row_of hash key) g))
Acts-insert_example =
    Acts-insert empty-ShardInv key config val get_or_create none empty-Healthy room is_admitted

Acts-get_example : Acts (get (parted_hash hash key) key) one (view hash one key) one
Acts-get_example = Acts-get one-ShardInv key

Acts-remove_example :
    (sh' : Shard) × Acts (remove (parted_hash hash key) key) one (view hash one key) sh'
    × Updates hash one sh' key none
Acts-remove_example = Acts-remove one-ShardInv key

abbrev tiny : InternalConfig
tiny = record config { max_shard_size = 4 }

reached :
    Reach hash config inserted.0
      (put key (row_value (full hash empty_shard key) set val none) no_keys)
reached = next (fresh 0 65536) (Steps.inserted key val set none _ room is_admitted inserted.1)

Reach-get_example :
    Acts
      (get (parted_hash hash key) key)
      inserted.0
      (put key (row_value (full hash empty_shard key) set val none) no_keys key)
      inserted.0
Reach-get_example = Reach-get reached key
