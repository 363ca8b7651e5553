-- ===== src/Shard/Compaction/Round.antt =====
-- One round of a compaction, and the exchange of the files at its end.
use candystore.Base.{
  ℕ, ◌+◌, ◌≤◌, ◌<◌, ◌^◌, ◌≡◌, refl, sym, ap, subst, ◌∙◌, Bool, true, false, none, some, ltb,
  ltb_of_lt, ltb_of_le, arith,
}
use candystore.Base.Bytes.{Bytes}
use candystore.Base.Outcome.{ok}
use candystore.Hashing.{Hasher, parted_hash, row_selector, num_rows, row_width}
use candystore.Hashing.Laws.{row_selector-lt}
use candystore.Stats.{fetch_add}
use candystore.Shard.Mmap.{InternalConfig, MmapFile}
use candystore.Shard.Mmap.Runs.{Runs, Runs-bind, Runs-gets, Runs-on_mmap}
use candystore.Shard.Mmap.Extends.{Extends, Extends-trans}
use candystore.Shard.Entry.Model.{RowInv, RowInv-Extends, view_row-Extends}
use candystore.Shard.Entry.Writes.{Extends-SameData}
use candystore.Shard.Acts.{Acts, Acts-at}
use candystore.Shard.Copy.{compact_row, copy_cols}
use candystore.Shard.Copy.Prefix.{cells_size}
use candystore.Shard.Copy.Laws.{Complete, Runs-copy_cols}
use candystore.Shard.Model.{view, read_row, ShardInv, IsTarget, TargetInv}
use candystore.Shard.Compaction.{Keeps, Healthy}
use candystore.Shard.{
  begin_compaction, start_compaction, finished, Shard, active, compact_step, finish_compaction,
}
use native.Mathlib.Decide.{ℕ_discrete, dec_lt}

-- the target has taken the place of the live file
abbrev pub exchanged : Shard → MmapFile → Shard
exchanged sh t = record sh { live = t; target = none; handle = some (finished (ok tt)) }

module _ {hash : Hasher} {sh : Shard} (v : ShardInv hash sh) (t : MmapFile)
    (e : sh.target ≡ some t) where
  tv : IsTarget t
  tv = subst TargetInv e v.target

  abbrev frontier : ℕ
  frontier = t.compacted_up_to

  below : (r : ℕ) → r < frontier → active sh r ≡ t
  below r lt = rw (e, ltb_of_lt r frontier lt) refl

  above : (r : ℕ) → frontier ≤ r → active sh r ≡ sh.live
  above r le = rw (e, ltb_of_le r frontier le) refl

  RowInv-at : {r : ℕ} {m : MmapFile} → active sh r ≡ m → r < num_rows → RowInv hash m r (m.rows r)
  RowInv-at {r} p lt = subst (λ m. RowInv hash m r (m.rows r)) p (v.rows r lt)

  source-RowInv : frontier < num_rows → RowInv hash sh.live frontier (sh.live.rows frontier)
  source-RowInv lt = RowInv-at (above frontier (omega arith)) lt

  abbrev advanced : MmapFile → MmapFile
  advanced g = record g { compacted_up_to = fetch_add g.compacted_up_to 1 }

  abbrev stepped : MmapFile → Shard
  stepped g = record sh { target = some (advanced g) }

  module _ (lt : frontier < num_rows) {g : MmapFile}
      (c : Complete v.live (source-RowInv lt) t g) where
    next : fetch_add g.compacted_up_to 1 ≡ frontier + 1
    next = rw c.frontier (omega arith)

    closes : Extends g (advanced g)
    closes = Extends-SameData c.extends.backed (record { offset = refl; file = refl })

    abbrev Row : MmapFile → ℕ → Type 0
    Row m r =
        RowInv hash m r (m.rows r) × ((q : Bytes) → read_row q m r ≡ read_row q (active sh r) r)

    Row-below : (r : ℕ) → r < frontier → Row (advanced g) r
    Row-below r lo =
        let inv = RowInv-at (below r lo) (omega arith) in
        rw (c.elsewhere r (omega arith), below r lo)
          (
            RowInv-Extends (Extends-trans c.extends closes) inv,
            λ q. view_row-Extends c.extends inv q,
          )

    Row-here : Row (advanced g) frontier
    Row-here = (
      RowInv-Extends closes c.valid,
      λ q. c.view q ∙ sym (ap (λ m. read_row q m frontier) (above frontier (omega arith))),
    )

    past : (r : ℕ) → frontier + 1 ≤ r → ltb r (fetch_add g.compacted_up_to 1) ≡ false
    past r le = ltb_of_le r _ (omega (arith, next))

    upto : (r : ℕ) → r < frontier + 1 → ltb r (fetch_add g.compacted_up_to 1) ≡ true
    upto r lo = ltb_of_lt r _ (omega (arith, next))

    served : (r : ℕ) → r < num_rows → Row (active (stepped g) r) r
    served r lr = elim (dec_lt r (frontier + 1)) [
      | no high ↦
          rw (past r (omega arith))
            (subst (λ m. Row m r) (above r (omega arith)) (v.rows r lr, λ q. refl))
      | yes low ↦ rw (upto r low) (elim (ℕ_discrete r frontier) [
        | yes same ↦ subst (Row (advanced g)) (sym same) Row-here
        | no other ↦ Row-below r (omega arith)
      ])
    ]

    stepped-Keeps : Keeps hash sh (stepped g)
    unfolding view
    stepped-Keeps = record {
      inv = record {
        live = v.live;
        target = record {
          backed = c.extends.backed;
          free = λ r j le.
              ap (λ row. row.signatures j) (c.elsewhere r (omega (arith, next)))
              ∙ tv.free r j (omega (arith, next));
        };
        rows = λ r lr. (served r lr).0;
      };
      view = λ q. (served _ (row_selector-lt (parted_hash hash q))).1 q;
    }

  Runs-compact_row :
      (first_row : Bool) {g : MmapFile}
      → Runs (copy_cols hash sh.live frontier first_row row_width 0 0) t tt g
      → Runs (compact_row hash sh.live first_row) t tt (advanced g)
  unfolding compact_row
  Runs-compact_row first_row runs = Runs-bind _ (Runs-gets t) (Runs-bind _ runs (Runs-on_mmap _ _))

  -- In a valid shard whose target has not reached the last row, and has room for the entries of the
  -- row to come, a round of the compaction raises no error; the shard is valid afterwards, has one
  -- more row compacted, and reads as before under every key.
  pub Acts-compact_step :
      (first_row : Bool)
      → frontier < num_rows
      → t.write_offset + cells_size (sh.live.rows frontier) row_width 0 < 2 ^ 32
      → (t' : MmapFile) × Acts (compact_step hash first_row) sh tt (record sh { target = some t' })
        × (t'.compacted_up_to ≡ frontier + 1)
        × Keeps hash sh (record sh { target = some t' })
  unfolding compact_step
  Acts-compact_step first_row lt fits =
      let (g, runs, c) =
        Runs-copy_cols v.live (source-RowInv lt) t first_row tv.backed
          (λ j. tv.free frontier j (omega arith)) fits in
      (
        advanced g,
        Acts-at _ sh tt _ (λ stats.
            let io =
              (Runs-compact_row first_row runs).at (record { mmap = t; stats = stats }) refl in
            rw e (io.0, ap (λ m. record sh { target = some m }) io.1)),
        next lt c,
        stepped-Keeps lt c,
      )

  -- When every row was compacted, the exchange raises no error: the target is the live file, there
  -- is no target any more, and the job ended well. The shard is valid and has its values under every
  -- key, and a compaction that is due starts with a new target.
  pub Acts-finish_compaction :
      (dur : ℕ)
      → num_rows ≤ frontier
      → Acts (finish_compaction dur) sh tt (exchanged sh t)
        × Keeps hash sh (exchanged sh t)
        × Healthy (exchanged sh t).handle (exchanged sh t).target
        × ((config : InternalConfig) (min_write_offset : ℕ)
            → min_write_offset ≤ t.write_offset
            → Acts
                (begin_compaction config min_write_offset)
                (exchanged sh t)
                tt
                (start_compaction config (exchanged sh t)))
  unfolding finish_compaction Healthy view begin_compaction start_compaction
  Acts-finish_compaction dur le = (
    Acts-at _ sh tt _ (λ stats. rw e (refl, refl)),
    record {
      inv = record {
        live = tv.backed;
        target = tt;
        rows = λ r lr. RowInv-at (below r (omega arith)) lr;
      };
      view = λ q. sym (
          ap (λ m. read_row q m (row_selector (parted_hash hash q)))
            (below _ (omega (arith, row_selector-lt (parted_hash hash q)))));
    },
    tt,
    λ config min fits.
        Acts-at _ (exchanged sh t) tt _
          (λ stats. rw (ltb_of_le t.write_offset min fits) (refl, refl)),
  )
