-- ===== src/Tests/Compaction.antt =====
-- Runs and uses of the theorems on compactions.
use candystore.Base.{
  ℕ, ◌+◌, ◌^◌, ◌≤◌, ◌≡◌, ◌<◌, refl, subst, true, false, none, some, arith, ltb_of_lt, ltb_of_le,
}
use candystore.Base.Outcome.{◌>>=◌}
use candystore.Base.Search.{position}
use candystore.Shard.Row.{lookup}
use candystore.Shard.Mmap.Runs.{Runs}
use candystore.Shard.Copy.{copy_cols}
use candystore.Shard.Copy.Laws.{Complete, Runs-copy_cols}
use candystore.Hashing.{parted_hash, from_hash, signature, num_rows, row_width, invalid_sig}
use candystore.Shard.Mmap.{InternalConfig, MmapFile, create, place}
use candystore.Shard.Mmap.Extends.{IsBacked}
use candystore.Shard.Entry.{admit, insert_in_row, try_replace, seek, add_entry_in}
use candystore.Shard.Model.{ShardInv}
use candystore.Shard.Acts.{Acts}
use candystore.Shard.Compaction.{Healthy, Keeps, Begins, begins}
use candystore.Shard.Compaction.Round.{exchanged, Acts-compact_step, Acts-finish_compaction}
use candystore.Shard.Copy.Prefix.{cells_size, cells_size-le}
use candystore.Shard.Entry.Model.{RowInv}
use candystore.Shard.{
  begin_compaction, start_compaction, Shard, running, serves, compact_step, finish_compaction,
  insert, operate_on_row,
}
use candystore.Tests.{hash, config, empty_shard, one, one-ShardInv, one-Healthy}

-- a compaction of the shard with one entry, that has just started
abbrev started : Shard
started = record one { target = some (create config); handle = some running }

one_target : one.target ≡ none
unfolding insert ◌>>=◌ operate_on_row create insert_in_row admit try_replace seek lookup position
    signature parted_hash from_hash add_entry_in place
one_target = refl

begins_example : Begins hash config one (some 0)
begins_example = begins one-ShardInv config (some 0) one-Healthy

started-ShardInv : ShardInv hash started
unfolding create
started-ShardInv = record {
  live = one-ShardInv.live;
  target = record { backed = omega arith; free = λ r j le. refl };
  rows = λ r lt. rw (ltb_of_le r 0 (omega arith)) (
      subst (λ o. RowInv hash (serves r one.live o) r ((serves r one.live o).rows r)) one_target
        (one-ShardInv.rows r lt));
}

room_left :
    (create config).write_offset
      + cells_size (started.live.rows (create config).compacted_up_to) row_width 0
    < 2 ^ 32
unfolding create
room_left = omega (
  arith,
  cells_size-le
      (subst (λ o. RowInv hash (serves 0 one.live o) 0 ((serves 0 one.live o).rows 0)) one_target
        (one-ShardInv.rows 0 (omega arith)))
      row_width 0 (omega arith),
)

first_row_left : (create config).compacted_up_to < num_rows
unfolding create
first_row_left = omega arith

Acts-compact_step_example :
    (t' : MmapFile) × Acts (compact_step hash true) started tt (record started { target = some t' })
    × (t'.compacted_up_to ≡ (create config).compacted_up_to + 1)
    × Keeps hash started (record started { target = some t' })
Acts-compact_step_example =
    Acts-compact_step started-ShardInv (create config) refl true first_row_left room_left

-- a compaction of an empty shard that has come to its end
abbrev full_target : MmapFile
full_target = record (create config) { compacted_up_to = 64 }

abbrev compacted : Shard
compacted = record empty_shard { target = some full_target; handle = some running }

compacted-ShardInv : ShardInv hash compacted
unfolding create
compacted-ShardInv = record {
  live = omega arith;
  target = record { backed = omega arith; free = λ r j le. refl };
  rows = λ r lt. rw (ltb_of_lt r 64 lt) (record {
    cells = λ i li u. absurd (u refl);
    unique = λ i j li lj ui uj p. absurd (ui refl);
  });
}

Acts-finish_compaction_example :
    Acts (finish_compaction 5) compacted tt (exchanged compacted full_target)
    × Keeps hash compacted (exchanged compacted full_target)
    × Healthy (exchanged compacted full_target).handle (exchanged compacted full_target).target
    × ((c : InternalConfig) (min_write_offset : ℕ)
        → min_write_offset ≤ full_target.write_offset
        → Acts
            (begin_compaction c min_write_offset)
            (exchanged compacted full_target)
            tt
            (start_compaction c (exchanged compacted full_target)))
Acts-finish_compaction_example =
    Acts-finish_compaction compacted-ShardInv full_target refl 5 (omega arith)

live_row : RowInv hash started.live 0 (started.live.rows 0)
live_row =
    subst (λ o. RowInv hash (serves 0 one.live o) 0 ((serves 0 one.live o).rows 0)) one_target
      (one-ShardInv.rows 0 (omega arith))

free_cells : (j : ℕ) → ((create config).rows 0).signatures j ≡ invalid_sig
unfolding create
free_cells j = refl

new_file : IsBacked (create config)
unfolding create
new_file = omega arith

room_for_row : (create config).write_offset + cells_size (started.live.rows 0) row_width 0 < 2 ^ 32
unfolding create
room_for_row = omega (arith, cells_size-le live_row row_width 0 (omega arith))

Runs-copy_cols_example :
    (g : MmapFile) × Runs (copy_cols hash started.live 0 false row_width 0 0) (create config) tt g
    × Complete started-ShardInv.live live_row (create config) g
Runs-copy_cols_example =
    Runs-copy_cols started-ShardInv.live live_row (create config) false new_file free_cells
      room_for_row
