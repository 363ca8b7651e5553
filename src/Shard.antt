-- ===== src/Shard.antt =====
-- src/shard.rs: a shard with its live file and the file that a compaction is filling. The locks
-- make each call on a row atomic; the state is passed along explicitly, and the statistics, which
-- the source shares by an `Arc`, stand beside the shard.
pub mod Disk
pub mod Row
pub mod Mmap
pub mod Entry
pub mod Copy
pub mod Model
pub mod Laws
pub mod Fresh
pub mod Compaction
pub mod Acts
pub mod Steps
pub mod Splitting
use candystore.Base.{
  ℕ, ◌+◌, ◌-◌, ◌/◌, Bool, true, false, Option, none, some, List, ltb, leb, if◌then◌else◌,
}
use candystore.Base.Bytes.{Bytes, length}
use candystore.Base.Outcome.{
  Result, ok, err, Exec, pure, fail, gets, modify, panicked, out_of_fuel, ◌>>=◌, ◌>>◌,
}
use candystore.Hashing.{Hasher, PartedHash, row_selector, num_rows}
use candystore.Base.Word.{wrapping_sub}
use candystore.Stats.{InternalStats, report_split, report_compaction}
use Mmap.{InternalConfig, MmapFile, KvPair, Io, create}
use Entry.{
  InsertStatus, InsertMode, get_in_row, get_by_hash_in_row, insert_in_row, remove_in_row,
  read_at_in_row,
}
use Copy.{Halves, compact_row, do_compaction, split_rows, merge_rows}

-- the handle of a compaction: `wait` blocks while it runs, and then gives its result once
pub data Job : Type 0 where
  running : Job
  finished : Result (Unit {0}) → Job

pub record Shard : Type 0 where
  pub span_start : ℕ
  pub span_end : ℕ
  pub live : MmapFile
  pub target : Option MmapFile
  pub handle : Option Job

pub record ShardState : Type 0 where
  pub shard : Shard
  pub stats : InternalStats

-- the file that a row is served from: the target, once the row was compacted
abbrev pub serves : ℕ → MmapFile → Option MmapFile → MmapFile
serves r live none = live
serves r live (some t) = if ltb r t.compacted_up_to then t else live

abbrev pub active : Shard → ℕ → MmapFile
active sh r = serves r sh.live sh.target

abbrev pub store_back : ℕ → MmapFile → Option MmapFile → MmapFile → MmapFile × Option MmapFile
store_back r live none m = (m, none)
store_back r live (some t) m = if ltb r t.compacted_up_to then (live, some m) else (m, some t)

-- the row's file is changed in place
abbrev pub set_active : Shard → ℕ → MmapFile → Shard
set_active sh r m =
    let files = store_back r sh.live sh.target m in record sh { live = files.0; target = files.1 }

-- `operate_on_row` and `operate_on_row_mut`
unfoldable pub operate_on_row : {A : Type 0} → ℕ → Exec Io A → Exec ShardState A
operate_on_row r m s =
    let io = m (record { mmap = active s.shard r; stats = s.stats }) in
    (io.0, record { shard = set_active s.shard r io.1.mmap; stats = io.1.stats })

-- `Shard::get`
unfoldable pub get : PartedHash → Bytes → Exec ShardState (Option Bytes)
get ph key = operate_on_row (row_selector ph) (get_in_row (row_selector ph) ph key)

-- `Shard::get_by_hash`
unfoldable pub get_by_hash : PartedHash → Exec ShardState (List KvPair)
get_by_hash ph = operate_on_row (row_selector ph) (get_by_hash_in_row (row_selector ph) ph)

-- `Shard::read_at`
unfoldable pub read_at : ℕ → ℕ → Bool → Exec ShardState (Option KvPair)
read_at row_idx entry_idx include_val =
    operate_on_row row_idx (read_at_in_row include_val row_idx entry_idx)

-- `Shard::remove`
unfoldable pub remove : PartedHash → Bytes → Exec ShardState (Option Bytes)
remove ph key = operate_on_row (row_selector ph) (remove_in_row (row_selector ph) ph key)

abbrev pub is_some {ℓ} : {A : Type ℓ} → Option A → Bool
is_some none = false
is_some (some a) = true

-- a new target, and the compaction job that fills it
unfoldable pub start_compaction : InternalConfig → Shard → Shard
start_compaction config sh = record sh { target = some (create config); handle = some running }

-- what a finished or missing job of an earlier compaction means for a new one
abbrev after_job : InternalConfig → Shard → Option Job → Result (Unit {0}) × Shard
after_job config sh none = (ok tt, start_compaction config sh)
after_job config sh (some running) = (err out_of_fuel, sh)
after_job config sh (some (finished (err e))) = (err e, record sh { handle = none })
after_job config sh (some (finished (ok _))) =
    if is_some sh.target
    then (err panicked, record sh { handle = none })
    else (ok tt, start_compaction config sh)

-- a target that is there: the job runs on, or there is none to ask, or it ended
abbrev with_target : InternalConfig → Shard → Option Job → Result (Unit {0}) × Shard
with_target config sh none = (ok tt, sh)
with_target config sh (some running) = (ok tt, sh)
with_target config sh (some (finished r)) = after_job config sh (some (finished r))

abbrev pub begin_on : InternalConfig → ℕ → Shard → Result (Unit {0}) × Shard
begin_on config min_write_offset sh =
    if ltb sh.live.write_offset min_write_offset
    then (ok tt, sh)
    else if is_some sh.target
    then with_target config sh sh.handle
    else after_job config sh sh.handle

-- `Shard::begin_compaction`
unfoldable pub begin_compaction : InternalConfig → ℕ → Exec ShardState (Unit {0})
unfolding start_compaction
begin_compaction config min_write_offset s =
    let res = begin_on config min_write_offset s.shard in (res.0, record s { shard = res.1 })

abbrev compact_if : InternalConfig → Option ℕ → Exec ShardState (Unit {0})
compact_if config none = pure tt
compact_if config (some min_write_offset) = begin_compaction config min_write_offset

-- `Shard::insert`
unfoldable pub insert :
    InternalConfig → PartedHash → Bytes → Bytes → InsertMode → Exec ShardState InsertStatus
insert config ph key val mode = do
  sh ← gets (λ s. s.shard)
  res ←
      operate_on_row (row_selector ph)
        (insert_in_row config (is_some sh.target) (row_selector ph) ph key val mode)
  compact_if config res.1
  pure res.0

-- one round of `do_compaction` in the background, under the lock of its row
unfoldable pub compact_step : Hasher → Bool → Exec ShardState (Unit {0})
compact_step hash first_row s = elim s.shard.target [
  | none ↦ (err panicked, s)
  | some t ↦
      let io = compact_row hash s.shard.live first_row (record { mmap = t; stats = s.stats }) in
      (io.0, record { shard = record s.shard { target = some io.1.mmap }; stats = io.1.stats })
]

-- the end of `background_compact`: the target takes the place of the live file
unfoldable pub finish_compaction : ℕ → Exec ShardState (Unit {0})
finish_compaction dur s = elim s.shard.target [
  | none ↦ (err panicked, s)
  | some t ↦ (
    ok tt,
    record {
      shard = record s.shard { live = t; target = none; handle = some (finished (ok tt)) };
      stats = report_compaction dur s.shard.live.write_offset t.write_offset s.stats;
    },
  )
]

abbrev pub new_shard : ℕ → ℕ → MmapFile → Shard
new_shard span_start span_end m = record {
  span_start = span_start;
  span_end = span_end;
  live = m;
  target = none;
  handle = none;
}

-- `wait` on a handle that was taken: it blocks while the job runs, which has no result here
abbrev waited : Option Job → Result (Unit {0})
waited none = ok tt
waited (some running) = err out_of_fuel
waited (some (finished r)) = r

-- `Shard::wait_for_compaction`
unfoldable pub wait_for_compaction : Exec ShardState (Unit {0})
wait_for_compaction s =
    (waited s.shard.handle, record s { shard = record s.shard { handle = none } })

abbrev split_end : Result (Unit {0}) → Halves → ℕ → ℕ → Exec ShardState (Shard × Shard)
split_end (err e) h mid dur s = (err e, record s { stats = h.stats })
split_end (ok _) h mid dur s = (
  ok (new_shard s.shard.span_start mid h.bottom, new_shard mid s.shard.span_end h.top),
  record s { stats = report_split dur h.bottom.write_offset h.top.write_offset h.stats },
)

abbrev split_files : Hasher → InternalConfig → ℕ → Exec ShardState (Shard × Shard)
split_files hash config dur s =
    let mid = (s.shard.span_start + s.shard.span_end) / 2 in
    let res =
      split_rows hash s.shard.live mid num_rows 0
        (record { bottom = create config; top = create config; stats = s.stats }) in
    split_end res.0 res.1 mid dur s

-- `Shard::split`; renaming and removing the files of the directory is left out
unfoldable pub split : Hasher → InternalConfig → ℕ → Exec ShardState (Shard × Shard)
split hash config dur = do wait_for_compaction; split_files hash config dur

-- `Shard::merge`: the combined shard, or `none` if a row would overflow
unfoldable pub merge : Hasher → InternalConfig → Shard → Shard → Exec InternalStats (Option Shard)
merge hash config bottom top stats =
    let res =
      merge_rows hash bottom.live top.live num_rows 0
        (record { mmap = create config; stats = stats }) in
    merge_end res.0 res.1
  where
    merge_end : Result Bool → Io → Result (Option Shard) × InternalStats
    merge_end (err e) io = (err e, io.stats)
    merge_end (ok false) io = (ok none, io.stats)
    merge_end (ok true) io =
        (ok (some (new_shard bottom.span_start top.span_end io.mmap)), io.stats)

-- `ShardStats` and `num_items`
pub record ShardStats : Type 0 where
  pub write_offset : ℕ
  pub wasted_bytes : ℕ
  pub num_inserts : ℕ
  pub num_removals : ℕ

-- `Shard::get_stats`
unfoldable pub get_stats : Exec ShardState ShardStats
get_stats = do
  wait_for_compaction
  gets (λ s. record {
    write_offset = s.shard.live.write_offset;
    wasted_bytes = s.shard.live.wasted_bytes;
    num_inserts = s.shard.live.num_inserts;
    num_removals = s.shard.live.num_removals;
  })

-- `ShardStats::num_items`
unfoldable pub num_items : ShardStats → ℕ
num_items st = wrapping_sub st.num_inserts st.num_removals
