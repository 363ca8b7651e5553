-- ===== src/Shard/Acts.antt =====
-- What an operation of a shard returns and leaves, whatever the statistics are.
use candystore.Base.{
  ℕ, ◌≡◌, refl, sym, ap, subst, ◌∙◌, Option, none, some, ltb, inl, inr, Bool-cases,
}
use candystore.Base.Outcome.{Exec, ok, pure, gets, ◌>>=◌}
use candystore.Stats.{InternalStats}
use candystore.Shard.Mmap.{MmapFile, Io}
use candystore.Shard.Mmap.Runs.{Runs}
use candystore.Shard.{Shard, ShardState, serves, store_back, active, set_active, operate_on_row}

-- from the shard `sh`, `m` returns `x` without an error and leaves the shard `sh'`
pub record Acts {A : Type 0} (m : Exec ShardState A) (sh : Shard) (x : A) (sh' : Shard)
    : Type 0 where
  pub at : (s : ShardState) → s.shard ≡ sh → ((m s).0 ≡ ok x) × ((m s).1.shard ≡ sh')

pub Acts-pure : {A : Type 0} (x : A) (sh : Shard) → Acts (pure x) sh x sh
Acts-pure x sh = record { at = λ s e. (refl, e) }

pub Acts-gets : (sh : Shard) → Acts (gets (λ s. s.shard)) sh sh sh
Acts-gets sh = record { at = λ s e. (ap ok e, e) }

pub Acts-bind :
    {A B : Type 0} {m : Exec ShardState A} (k : A → Exec ShardState B) {f g h : Shard} {x : A}
    {y : B}
    → Acts m f x g
    → Acts (k x) g y h
    → Acts (m >>= k) f y h
unfolding ◌>>=◌
Acts-bind {m} k rm rk = record {
  at = λ s e. let (result, left) = rm.at s e in rw result (rk.at (m s).1 left);
}

-- An action on the file of a row acts on the shard by that file.
pub Acts-operate :
    {A : Type 0} {m : Exec Io A} {sh : Shard} (r : ℕ) {x : A} {g : MmapFile}
    → Runs m (active sh r) x g
    → Acts (operate_on_row r m) sh x (set_active sh r g)
unfolding operate_on_row
Acts-operate {m} {sh} r {g = g} runs = record {
  at = λ s e.
      let io =
        runs.at (record { mmap = active s.shard r; stats = s.stats }) (ap (λ h. active h r) e) in
      (
        io.0,
        ap (λ h. set_active h r (m (record { mmap = active s.shard r; stats = s.stats })).1.mmap) e
            ∙ ap (set_active sh r) io.1,
      );
}

store_back-same :
    (r : ℕ) (live : MmapFile) (target : Option MmapFile)
    → store_back r live target (serves r live target) ≡ (live, target)
store_back-same r live none = refl
store_back-same r live (some t) = elim (Bool-cases (ltb r t.compacted_up_to)) [
  | inl e ↦ rw e
  | inr e ↦ rw e
]

pub set_active-same : (sh : Shard) (r : ℕ) → set_active sh r (active sh r) ≡ sh
set_active-same sh r =
    ap (λ files. record sh { live = files.0; target = files.1 })
      (store_back-same r sh.live sh.target)

pub Acts-at :
    {A : Type 0} (m : Exec ShardState A) (sh : Shard) (x : A) (sh' : Shard)
    → ((stats : InternalStats)
        → ((m (record { shard = sh; stats = stats })).0 ≡ ok x)
          × ((m (record { shard = sh; stats = stats })).1.shard ≡ sh'))
    → Acts m sh x sh'
Acts-at m sh x sh' h = record {
  at = λ s e.
      subst
        (λ z.
          ((m (record { shard = z; stats = s.stats })).0 ≡ ok x)
          × ((m (record { shard = z; stats = s.stats })).1.shard ≡ sh'))
        (sym e) (h s.stats);
}
