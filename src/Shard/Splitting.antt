-- ===== src/Shard/Splitting.antt =====
-- `Shard::split`: the two halves stand for the map of the shard, each for the keys of its span.
use candystore.Base.{
  ℕ, ◌+◌, ◌/◌, ◌<◌, ◌^◌, ◌≡◌, refl, sym, ap, subst, ◌∙◌, Bool, Option, none, some, if◌then◌else◌,
  arith,
}
use candystore.Base.Bytes.{Bytes}
use candystore.Base.Outcome.{Result, ok, err}
use candystore.Hashing.{Hasher, parted_hash, row_selector, num_rows}
use candystore.Hashing.Laws.{row_selector-lt}
use candystore.Shard.Mmap.{InternalConfig, MmapFile, create}
use candystore.Shard.Entry.Model.{RowInv}
use candystore.Shard.Copy.{Halves, split_rows}
use candystore.Shard.Copy.Split.{Splits, low, high}
use candystore.Shard.Copy.SplitRows.{rows_size, RowsDone, splits_rows}
use candystore.Shard.Model.{view, read_row, ShardInv}
use candystore.Shard.Acts.{Acts, Acts-bind, Acts-at}
use candystore.Shard.Compaction.{Healthy}
use candystore.Shard.{
  Job, running, finished, Shard, ShardState, serves, active, new_shard, wait_for_compaction,
  split_files, split_end, split,
}

abbrev pub middle : Shard → ℕ
middle sh = (sh.span_start + sh.span_end) / 2

Acts-wait :
    (sh : Shard) (handle : Option Job)
    → Healthy handle none
    → Acts wait_for_compaction (record sh { handle = handle }) tt (record sh { handle = none })
unfolding wait_for_compaction Healthy
Acts-wait sh none h = Acts-at _ _ _ _ (λ stats. (refl, refl))
Acts-wait sh (some running) h = absurd h
Acts-wait sh (some (finished (err e))) h = absurd h
Acts-wait sh (some (finished (ok x))) h = Acts-at _ _ _ _ (λ stats. (refl, refl))

split_end-ok :
    (res : Result (Unit {0})) (h : Halves) (mid dur : ℕ) (s : ShardState) {b t : MmapFile}
    → res ≡ ok tt
    → h.bottom ≡ b
    → h.top ≡ t
    → ((split_end res h mid dur s).0
        ≡ ok (new_shard s.shard.span_start mid b, new_shard mid s.shard.span_end t))
      × ((split_end res h mid dur s).1.shard ≡ s.shard)
split_end-ok res h mid dur s {b} {t} e eb et = rw e (
  ap (λ m. ok (new_shard s.shard.span_start mid m, new_shard mid s.shard.span_end h.top)) eb
      ∙ ap (λ m. ok (new_shard s.shard.span_start mid b, new_shard mid s.shard.span_end m)) et,
  refl,
)

Acts-split_files :
    (hash : Hasher) (config : InternalConfig) (dur : ℕ) (sh : Shard) (b t : MmapFile)
    → Splits (split_rows hash sh.live (middle sh) num_rows 0) (create config) (create config) tt b t
    → Acts
        (split_files hash config dur)
        sh
        (new_shard sh.span_start (middle sh) b, new_shard (middle sh) sh.span_end t)
        sh
Acts-split_files hash config dur sh b t splits = Acts-at _ _ _ _ (λ stats.
    let (result, left, right) =
      splits.at (record { bottom = create config; top = create config; stats = stats }) refl refl in
    split_end-ok _ _ (middle sh) dur (record { shard = sh; stats = stats }) result left right)

-- a half as a shard
module _ {hash : Hasher} {sh : Shard} (v : ShardInv hash sh) (no_target : sh.target ≡ none) where
  served_live : (r : ℕ) → active sh r ≡ sh.live
  served_live r = ap (serves r sh.live) no_target

  live_rows : (r : ℕ) → r < num_rows → RowInv hash sh.live r (sh.live.rows r)
  live_rows r lt = subst (λ m. RowInv hash m r (m.rows r)) (served_live r) (v.rows r lt)

  fresh_rows :
      (config : InternalConfig) (p : Bytes → Bool) → RowsDone v.live live_rows p 0 (create config)
  unfolding create
  fresh_rows config p = record {
    backed = omega arith;
    valid = λ s lt. absurd (omega arith);
    view = λ s lt. absurd (omega arith);
    free = λ s j le. refl;
  }

  -- a new shard over a half of the file
  pub record HalfShard (p : Bytes → Bool) (half : Shard) : Type 0 where
    pub inv : ShardInv hash half
    pub healthy : Healthy half.handle half.target
    pub view : (q : Bytes) → view hash half q ≡ (if p q then view hash sh q else none)

  half_shard :
      (p : Bytes → Bool) (span_start span_end : ℕ) (m : MmapFile)
      → RowsDone v.live live_rows p num_rows m
      → HalfShard p (new_shard span_start span_end m)
  unfolding Healthy view
  half_shard p span_start span_end m d = record {
    inv = record { live = d.backed; target = tt; rows = d.valid };
    healthy = tt;
    view = λ q.
        let r = row_selector (parted_hash hash q) in
        d.view r (row_selector-lt (parted_hash hash q)) q
        ∙ ap (λ m. if p q then read_row q m r else none) (sym (served_live r));
  }

  -- what a split returns
  pub record Parted (config : InternalConfig) (dur : ℕ) : Type 0 where
    pub bottom : MmapFile
    pub top : MmapFile
    pub acts :
        Acts
          (split hash config dur)
          sh
          (new_shard sh.span_start (middle sh) bottom, new_shard (middle sh) sh.span_end top)
          (record sh { handle = none })
    pub low_half : HalfShard (low hash (middle sh)) (new_shard sh.span_start (middle sh) bottom)
    pub high_half : HalfShard (high hash (middle sh)) (new_shard (middle sh) sh.span_end top)

  -- From a valid shard without a target, whose last compaction, if there was one, has not failed,
  -- and whose entries together are shorter than `2 ^ 32`: `split` raises no error and returns two
  -- valid shards without a target, over the two halves of the span, of which the first has, under
  -- each key whose shard selector is below the middle, the value that the shard had, the second
  -- under each other key, and neither anything else.
  pub Acts-split :
      (config : InternalConfig) (dur : ℕ)
      → Healthy sh.handle none
      → rows_size sh.live num_rows 0 < 2 ^ 32
      → Parted config dur
  unfolding split create
  Acts-split config dur h fits =
      let r =
        splits_rows v.live live_rows (middle sh) num_rows 0 (create config) (create config) refl
          (fresh_rows config (low hash (middle sh))) (fresh_rows config (high hash (middle sh)))
          (omega (arith, fits)) (omega (arith, fits)) in
      record {
        bottom = r.bottom;
        top = r.top;
        acts = Acts-bind _ (Acts-wait sh sh.handle h) (
            Acts-split_files hash config dur (record sh { handle = none }) r.bottom r.top r.splits);
        low_half = half_shard (low hash (middle sh)) sh.span_start (middle sh) r.bottom r.low_half;
        high_half = half_shard (high hash (middle sh)) (middle sh) sh.span_end r.top r.high_half;
      }
