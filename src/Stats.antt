-- ===== src/Stats.antt =====
-- src/stats.rs: the counters that the store keeps. A counter is an `AtomicUsize`; `fetch_add` wraps.
pub mod Cyclic
pub mod Summary
use candystore.Base.{ℕ, ◌+◌, ◌-◌, ◌%◌, ◌^◌, List, [], ltb, if◌then◌else◌}
use candystore.Stats.Cyclic.{CyclicArr, push, clear, iter}

-- `AtomicU64::fetch_add`, `AtomicUsize::fetch_add`
abbrev pub fetch_add : ℕ → ℕ → ℕ
fetch_add x n = (x + n) % 2 ^ 64

-- a duration, a size and a size
abbrev pub Report : Type 0
Report = ℕ × ℕ × ℕ

pub record InternalStats : Type 0 where
  pub num_splits : ℕ
  pub num_compactions : ℕ
  pub last_compaction_stats : CyclicArr Report
  pub last_split_stats : CyclicArr Report
  pub num_updates : ℕ
  pub num_positive_lookups : ℕ
  pub num_negative_lookups : ℕ
  pub num_collisions : ℕ
  pub num_read_ops : ℕ
  pub num_read_bytes : ℕ
  pub num_write_ops : ℕ
  pub num_write_bytes : ℕ
  pub entries_under_128 : ℕ
  pub entries_under_1k : ℕ
  pub entries_under_8k : ℕ
  pub entries_under_32k : ℕ
  pub entries_over_32k : ℕ

-- `InternalStats::add_entry`
unfoldable pub add_entry : ℕ → InternalStats → InternalStats
add_entry sz s =
    let t = record s {
      num_write_bytes = fetch_add s.num_write_bytes sz;
      num_write_ops = fetch_add s.num_write_ops 1;
    } in
    if ltb sz 128
    then record t { entries_under_128 = fetch_add t.entries_under_128 1 }
    else if ltb sz 1024
    then record t { entries_under_1k = fetch_add t.entries_under_1k 1 }
    else if ltb sz 8192
    then record t { entries_under_8k = fetch_add t.entries_under_8k 1 }
    else if ltb sz 32768
    then record t { entries_under_32k = fetch_add t.entries_under_32k 1 }
    else record t { entries_over_32k = fetch_add t.entries_over_32k 1 }

abbrev pub no_report : Report
no_report = (0, 0, 0)

abbrev pub reports : ℕ
reports = 8

-- `report_split` and `report_compaction`, for the duration that the clock gave
unfoldable pub report_split : ℕ → ℕ → ℕ → InternalStats → InternalStats
report_split dur bottom_size top_size s = record s {
  num_splits = fetch_add s.num_splits 1;
  last_split_stats = push reports (dur, bottom_size, top_size) s.last_split_stats;
}

unfoldable pub report_compaction : ℕ → ℕ → ℕ → InternalStats → InternalStats
report_compaction dur prev_size new_size s = record s {
  num_compactions = fetch_add s.num_compactions 1;
  last_compaction_stats = push reports (dur, prev_size, new_size) s.last_compaction_stats;
}

-- `_read_kv` counts one read and its bytes
unfoldable pub add_read : ℕ → InternalStats → InternalStats
add_read n s = record s {
  num_read_bytes = fetch_add s.num_read_bytes n;
  num_read_ops = fetch_add s.num_read_ops 1;
}

-- `InternalStats::default`
abbrev pub fresh_stats : InternalStats
fresh_stats = record {
  num_splits = 0;
  num_compactions = 0;
  last_compaction_stats = Cyclic.empty no_report;
  last_split_stats = Cyclic.empty no_report;
  num_updates = 0;
  num_positive_lookups = 0;
  num_negative_lookups = 0;
  num_collisions = 0;
  num_read_ops = 0;
  num_read_bytes = 0;
  num_write_ops = 0;
  num_write_bytes = 0;
  entries_under_128 = 0;
  entries_under_1k = 0;
  entries_under_8k = 0;
  entries_under_32k = 0;
  entries_over_32k = 0;
}

-- `InternalStats::clear`
unfoldable pub clear_stats : InternalStats → InternalStats
clear_stats s = record s {
  num_splits = 0;
  num_compactions = 0;
  last_split_stats = clear reports no_report s.last_split_stats;
  last_compaction_stats = clear reports no_report s.last_compaction_stats;
  num_updates = 0;
  num_positive_lookups = 0;
  num_negative_lookups = 0;
  num_collisions = 0;
  num_read_ops = 0;
  num_read_bytes = 0;
  num_write_ops = 0;
  num_write_bytes = 0;
  entries_under_128 = 0;
  entries_under_1k = 0;
  entries_under_8k = 0;
  entries_under_32k = 0;
  entries_over_32k = 0;
}
