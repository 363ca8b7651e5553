-- ===== src/Stats/Summary/Laws.antt =====
-- What `fill_stats` hands over.
use candystore.Base.Bytes.{length}
use candystore.Base.{◌^◌, ◌<◌, ◌≡◌, refl, ap, ◌∙◌, List, [], ◌∷◌, arith}
use candystore.Stats.{InternalStats, Report, no_report, reports, report_split}
use candystore.Stats.Cyclic.{iter}
use candystore.Stats.Cyclic.Laws.{pushes, take_last, iter-pushes}
use candystore.Stats.Summary.{Stats, fill_stats}

-- a run of splits, each of which is reported
unfoldable pub report_splits : List Report → InternalStats → InternalStats
report_splits [] s = s
report_splits ((dur, bottom_size, top_size) ∷ rs) s =
    report_splits rs (report_split dur bottom_size top_size s)

report_splits-pushes :
    (rs : List Report) (s : InternalStats)
    → (report_splits rs s).last_split_stats ≡ pushes reports rs s.last_split_stats
unfolding report_splits report_split pushes
report_splits-pushes [] s = refl
report_splits-pushes ((dur, bottom_size, top_size) ∷ rs) s =
    report_splits-pushes rs (report_split dur bottom_size top_size s)

-- Whatever was reported before, a call of `fill_stats` forgets it: the next call hands over the
-- splits that were reported in between, if they are fewer than 2^64, the last eight of them, in
-- their order.
pub fill_stats-report_splits :
    (rs : List Report) (s : InternalStats) (st st' : Stats)
    → length rs < 2 ^ 64
    → (fill_stats (report_splits rs (fill_stats s st).1) st').0.last_split_stats
      ≡ take_last reports rs
unfolding fill_stats
fill_stats-report_splits rs s st st' word =
    ap (iter reports) (report_splits-pushes rs (fill_stats s st).1)
    ∙ (iter-pushes reports (omega arith) no_report s.last_split_stats rs word).1
