-- ===== src/Tests/Words.antt =====
-- Uses of the theorems on hashes, packed words and rings.
use candystore.Base.{List}
use candystore.Stats.{Report, reports, fresh_stats}
use candystore.Stats.Summary.{Stats, fill_stats}
use candystore.Stats.Summary.Laws.{report_splits, fill_stats-report_splits}
use candystore.Base.{ℕ, ◌+◌, ◌%◌, ◌/◌, ◌^◌, ◌≡◌, ◌≢◌, ◌<◌, [], ◌∷◌, arith}
use candystore.Shard.Row.{pack, key_len, val_len, file_offset}
use candystore.Shard.Row.Descriptor.{fields-pack}
use candystore.Hashing.Laws.{from_hash_parts}
use candystore.Stats.Cyclic.{CyclicArr, empty, push, clear, iter}
use candystore.Stats.Cyclic.Laws.{pushes, take_last, iter-pushes}
use candystore.Hashing.{
  Hash128, from_hash, shard_selector, row_selector, signature, num_rows, invalid_sig,
}

fields-pack_example :
    (key_len (pack 3 70 9000) ≡ 3)
    × (val_len (pack 3 70 9000) ≡ 70)
    × (file_offset (pack 3 70 9000) ≡ 9000)
    × (pack 3 70 9000 < 2 ^ 64)
fields-pack_example = fields-pack 3 70 9000 (omega arith) (omega arith) (omega arith)

abbrev some_hash : Hash128
some_hash = record { h1 = 2 ^ 63 + 2 ^ 33; h2 = 5 }

from_hash_parts_example :
    (shard_selector (from_hash some_hash) ≡ (some_hash.h1 / 2 ^ 48) % 2 ^ 16)
    × (row_selector (from_hash some_hash) ≡ ((some_hash.h1 / 2 ^ 32) % 2 ^ 16) % num_rows)
    × (signature (from_hash some_hash) ≢ invalid_sig)
    × (from_hash some_hash < 2 ^ 64)
from_hash_parts_example = from_hash_parts some_hash

abbrev ring : CyclicArr ℕ
ring = push 2 8 (empty 0)

iter-pushes_example :
    (iter {T = ℕ} 2 (pushes 2 (4 ∷ 5 ∷ 6 ∷ []) (empty 0)) ≡ take_last {T = ℕ} 2 (4 ∷ 5 ∷ 6 ∷ []))
    × (iter {T = ℕ} 2 (pushes 2 (4 ∷ 5 ∷ 6 ∷ []) (clear 2 0 ring))
        ≡ take_last {T = ℕ} 2 (4 ∷ 5 ∷ 6 ∷ []))
iter-pushes_example = iter-pushes 2 (omega arith) 0 ring (4 ∷ 5 ∷ 6 ∷ []) (omega arith)

abbrev no_stats : Stats
no_stats = record {
  num_shards = 0;
  num_splits = 0;
  num_compactions = 0;
  last_split_stats = [];
  last_compaction_stats = [];
  occupied_bytes = 0;
  wasted_bytes = 0;
  num_inserts = 0;
  num_updates = 0;
  num_positive_lookups = 0;
  num_negative_lookups = 0;
  num_removals = 0;
  num_collisions = 0;
  num_read_ops = 0;
  num_read_bytes = 0;
  num_write_ops = 0;
  num_write_bytes = 0;
  entries_under_128 = 0;
  entries_under_1k = 0;
  entries_under_8k = 0;
  entries_under_32k = 0;
  entries_over_32k = 0;
}

abbrev two_splits : List Report
two_splits = (1, 20, 30) ∷ (2, 40, 50) ∷ []

fill_stats-report_splits_example :
    (fill_stats
      (report_splits two_splits (fill_stats fresh_stats no_stats).1)
      no_stats).0.last_split_stats
    ≡ take_last reports two_splits
fill_stats-report_splits_example =
    fill_stats-report_splits two_splits fresh_stats no_stats no_stats (omega arith)
