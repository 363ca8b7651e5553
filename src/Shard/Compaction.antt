-- ===== src/Shard/Compaction.antt =====
-- A compaction, from its start to the exchange of the files: the shard stands for the same map
-- throughout.
pub mod Round
use candystore.Base.{
  ℕ, ◌+◌, ◌≤◌, ◌<◌, ◌^◌, ◌≡◌, ◌≢◌, refl, sym, ap, subst, ◌∙◌, Bool, true, false, Option, none, some,
  ltb, if◌then◌else◌, inl, inr, Bool-cases, ltb→lt, arith, ◌⊎◌,
}
use candystore.Base.Bytes.{Bytes, bytes_eq, length}
use candystore.Base.Outcome.{Exec, Result, ok, err, pure, gets, ◌>>=◌, ◌>>◌}
use candystore.Hashing.{Hasher, parted_hash, row_selector, num_rows, row_width, invalid_sig}
use candystore.Hashing.Laws.{row_selector-lt}
use candystore.Shard.Mmap.{InternalConfig, MmapFile, Io, create}
use candystore.Shard.Mmap.Runs.{Runs}
use candystore.Shard.Mmap.Extends.{IsBacked}
use candystore.Shard.Entry.Model.{RowInv, view_row}
use candystore.Shard.Acts.{Acts, Acts-pure}
use candystore.Shard.Model.{view, read_row, ShardInv, IsTarget}
use candystore.Shard.{
  Job, running, finished, Shard, ShardState, serves, store_back, active, set_active,
  begin_compaction, begin_on, with_target, after_job, start_compaction, compact_if, compact_step,
  finish_compaction, is_some,
}

-- no compaction has failed: the job runs as long as there is a target
unfoldable pub Healthy : Option Job → Option MmapFile → Type 0
Healthy none none = Unit
Healthy (some running) (some t) = Unit
Healthy (some (finished (ok x))) none = Unit
Healthy none (some t) = ⊥
Healthy (some running) none = ⊥
Healthy (some (finished (ok x))) (some t) = ⊥
Healthy (some (finished (err e))) t = ⊥

store_back-Healthy :
    (r : ℕ) (live : MmapFile) (target : Option MmapFile) (g : MmapFile) (handle : Option Job)
    → Healthy handle target
    → Healthy handle (store_back r live target g).1
unfolding Healthy
store_back-Healthy r live none g handle h = h
store_back-Healthy r live (some t) g (some running) h =
    elim (Bool-cases (ltb r t.compacted_up_to)) [ inl e ↦ rw e tt | inr e ↦ rw e tt ]
store_back-Healthy r live (some t) g none h = absurd h
store_back-Healthy r live (some t) g (some (finished (ok x))) h = absurd h
store_back-Healthy r live (some t) g (some (finished (err e))) h = absurd h

pub Healthy-set_active :
    (sh : Shard) (r : ℕ) (g : MmapFile)
    → Healthy sh.handle sh.target
    → Healthy (set_active sh r g).handle (set_active sh r g).target
Healthy-set_active sh r g h = store_back-Healthy r sh.live sh.target g sh.handle h

-- the same map, in a valid shard
pub record Keeps (hash : Hasher) (sh sh' : Shard) : Type 0 where
  pub inv : ShardInv hash sh'
  pub view : (q : Bytes) → view hash sh' q ≡ view hash sh q

-- a compaction is due from a write offset on, and there is at most one
abbrev pub started_if : InternalConfig → Option ℕ → Shard → Shard
started_if config none sh = sh
started_if config (some min) sh =
    if ltb sh.live.write_offset min
    then sh
    else if is_some sh.target
    then sh
    else start_compaction config sh

-- what starting a compaction, or not starting it, leaves
pub record Begins (hash : Hasher) (config : InternalConfig) (sh : Shard) (should : Option ℕ)
    : Type 0 where
  pub left : Shard
  pub acts : Acts (compact_if config should) sh tt left
  pub keeps : Keeps hash sh left
  pub healthy : Healthy left.handle left.target
  pub due : left ≡ started_if config should sh

Keeps-refl : {hash : Hasher} {sh : Shard} → ShardInv hash sh → Keeps hash sh sh
Keeps-refl v = record { inv = v; view = λ q. refl }

-- what `begin_compaction` makes of a healthy shard
module _ (config : InternalConfig) (sh : Shard) where
  abbrev Started : Shard → Result (Unit {0}) × Shard → Type 0
  Started after res =
      ((res ≡ (ok tt, sh)) × (after ≡ sh))
      ⊎ ((res ≡ (ok tt, start_compaction config sh))
          × (sh.target ≡ none)
          × (after ≡ start_compaction config sh))

  begun_with :
      (handle : Option Job) (target : Option MmapFile)
      → sh.target ≡ target
      → Healthy handle target
      → Started
          (if is_some target then sh else start_compaction config sh)
          (if is_some target then with_target config sh handle else after_job config sh handle)
  unfolding Healthy
  begun_with none none e h = inr (refl, e, refl)
  begun_with (some (finished (ok x))) none e h = inr (rw e refl, e, refl)
  begun_with (some running) (some t) e h = inl (refl, refl)
  begun_with none (some t) e h = absurd h
  begun_with (some running) none e h = absurd h
  begun_with (some (finished (ok x))) (some t) e h = absurd h
  begun_with (some (finished (err x))) t e h = absurd h

  begun :
      (min_write_offset : ℕ)
      → Healthy sh.handle sh.target
      → Started (started_if config (some min_write_offset) sh) (begin_on config min_write_offset sh)
  begun min h = elim (Bool-cases (ltb sh.live.write_offset min)) [
    | inl e ↦ rw e (inl (refl, refl))
    | inr e ↦ rw e (begun_with sh.handle sh.target refl h)
  ]

  -- A new target serves no row yet.
  active-start : sh.target ≡ none → (r : ℕ) → active (start_compaction config sh) r ≡ active sh r
  unfolding start_compaction create
  active-start e r = elim (Bool-cases (ltb r 0)) [
    | inl low ↦ absurd (omega (arith, ltb→lt r 0 low))
    | inr high ↦ rw (high, e)
  ]

  start-Keeps :
      {hash : Hasher}
      → ShardInv hash sh
      → sh.target ≡ none
      → Keeps hash sh (start_compaction config sh)
  unfolding start_compaction create view
  start-Keeps {hash} v e = record {
    inv = record {
      live = v.live;
      target = record { backed = omega arith; free = λ r j le. refl };
      rows = λ r lt. subst (λ m. RowInv hash m r (m.rows r)) (sym (active-start e r)) (v.rows r lt);
    };
    view = λ q.
        ap (λ m. read_row q m (row_selector (parted_hash hash q)))
          (active-start e (row_selector (parted_hash hash q)));
  }

Acts-of :
    (f : Shard → Result (Unit {0}) × Shard) {sh sh' : Shard}
    → f sh ≡ (ok tt, sh')
    → Acts (λ s. ((f s.shard).0, record s { shard = (f s.shard).1 })) sh tt sh'
Acts-of f p = record {
  at = λ s e. (ap (λ h. (f h).0) e ∙ ap (λ r. r.0) p, ap (λ h. (f h).1) e ∙ ap (λ r. r.1) p);
}

start-Healthy :
    (config : InternalConfig) (sh : Shard)
    → Healthy (start_compaction config sh).handle (start_compaction config sh).target
unfolding Healthy start_compaction
start-Healthy config sh = tt

-- From a healthy valid shard, the start of a compaction raises no error; it starts one if it is due
-- and there is none, and leaves the shard as it was otherwise; the shard stands for the same map.
pub begins :
    {hash : Hasher} {sh : Shard}
    → ShardInv hash sh
    → (config : InternalConfig) (should : Option ℕ) → Healthy sh.handle sh.target
    → Begins hash config sh should
unfolding begin_compaction
begins {hash} {sh} v config none h = record {
  left = sh;
  acts = Acts-pure tt sh;
  keeps = Keeps-refl v;
  healthy = h;
  due = refl;
}
begins {hash} {sh} v config (some min) h = elim (begun config sh min h) [
  | inl (e, same) ↦ record {
    left = sh;
    acts = Acts-of (begin_on config min) e;
    keeps = Keeps-refl v;
    healthy = h;
    due = sym same;
  }
  | inr (e, none_yet, same) ↦ record {
    left = start_compaction config sh;
    acts = Acts-of (begin_on config min) e;
    keeps = start-Keeps config sh v none_yet;
    healthy = start-Healthy config sh;
    due = sym same;
  }
]
