-- ===== src/Stats/Summary.antt =====
-- `Stats` of src/stats.rs: the figures that the store reports, and those derived from them. The
-- number of shards that are wanted is computed with floating-point numbers and is an argument.
pub mod Laws
use candystore.Base.{
  ℕ, zero, suc, ◌+◌, ◌*◌, ◌/◌, ◌%◌, ◌^◌, Bool, List, [], ltb, ◌==◌, if◌then◌else◌,
}
use candystore.Base.Word.{wrapping_sub}
use candystore.Stats.{InternalStats, Report, no_report, reports}
use candystore.Stats.Cyclic.{clear, iter}

pub record Stats : Type 0 where
  pub num_shards : ℕ
  pub num_splits : ℕ
  pub num_compactions : ℕ
  pub last_split_stats : List Report
  pub last_compaction_stats : List Report
  pub occupied_bytes : ℕ
  pub wasted_bytes : ℕ
  pub num_inserts : ℕ
  pub num_updates : ℕ
  pub num_positive_lookups : ℕ
  pub num_negative_lookups : ℕ
  pub num_removals : ℕ
  pub num_collisions : ℕ
  pub num_read_ops : ℕ
  pub num_read_bytes : ℕ
  pub num_write_ops : ℕ
  pub num_write_bytes : ℕ
  pub entries_under_128 : ℕ
  pub entries_under_1k : ℕ
  pub entries_under_8k : ℕ
  pub entries_under_32k : ℕ
  pub entries_over_32k : ℕ

unfoldable pub data_bytes : Stats → ℕ
data_bytes st = wrapping_sub st.occupied_bytes st.wasted_bytes

unfoldable pub total_occupied_bytes : ℕ → Stats → ℕ
total_occupied_bytes file_header_size st =
    (st.num_shards * file_header_size + st.occupied_bytes) % 2 ^ 64

unfoldable pub num_entries : Stats → ℕ
num_entries st = wrapping_sub st.num_inserts st.num_removals

-- `checked_div(..).unwrap_or(0)`
unfoldable pub average_entry_size : Stats → ℕ
average_entry_size st = if num_entries st == 0 then 0 else data_bytes st / num_entries st

unfoldable pub should_merge_small_shards : ℕ → Stats → Bool
should_merge_small_shards required_num_shards st = ltb (required_num_shards * 2) st.num_shards

-- `InternalStats::fill_stats`: the reports that were handed over are forgotten
unfoldable pub fill_stats : InternalStats → Stats → Stats × InternalStats
fill_stats s st = (
  record st {
    num_splits = s.num_splits;
    num_compactions = s.num_compactions;
    last_split_stats = iter reports s.last_split_stats;
    last_compaction_stats = iter reports s.last_compaction_stats;
    num_updates = s.num_updates;
    num_positive_lookups = s.num_positive_lookups;
    num_negative_lookups = s.num_negative_lookups;
    num_collisions = s.num_collisions;
    num_read_ops = s.num_read_ops;
    num_read_bytes = s.num_read_bytes;
    num_write_ops = s.num_write_ops;
    num_write_bytes = s.num_write_bytes;
    entries_under_128 = s.entries_under_128;
    entries_under_1k = s.entries_under_1k;
    entries_under_8k = s.entries_under_8k;
    entries_under_32k = s.entries_under_32k;
    entries_over_32k = s.entries_over_32k;
  },
  record s {
    last_split_stats = clear reports no_report s.last_split_stats;
    last_compaction_stats = clear reports no_report s.last_compaction_stats;
  },
)
