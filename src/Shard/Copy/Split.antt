-- ===== src/Shard/Copy/Split.antt =====
-- Calls on the two files of a split, and the keys that belong to each.
use candystore.Base.{ℕ, ◌≡◌, refl, Bool, true, false, if◌then◌else◌, ltb}
use candystore.Base.Bytes.{Bytes}
use candystore.Base.Outcome.{Exec, ok, pure, ◌>>=◌}
use candystore.Hashing.{Hasher, parted_hash, shard_selector}
use candystore.Shard.Mmap.{MmapFile, Io}
use candystore.Shard.Mmap.Runs.{Runs}
use candystore.Shard.Copy.{Halves, on_bottom, on_top}

-- from the files `b` and `t`, `m` returns `x` without an error and leaves `b'` and `t'`, whatever
-- the statistics are
pub record Splits {A : Type 0} (m : Exec Halves A) (b t : MmapFile) (x : A) (b' t' : MmapFile)
    : Type 0 where
  pub at :
      (s : Halves)
      → s.bottom ≡ b
      → s.top ≡ t
      → ((m s).0 ≡ ok x) × ((m s).1.bottom ≡ b') × ((m s).1.top ≡ t')

pub Splits-pure : {A : Type 0} (x : A) (b t : MmapFile) → Splits (pure x) b t x b t
Splits-pure x b t = record { at = λ s eb et. (refl, eb, et) }

pub Splits-bind :
    {A B : Type 0} {m : Exec Halves A} (k : A → Exec Halves B) {b t b' t' b'' t'' : MmapFile}
    {x : A} {y : B}
    → Splits m b t x b' t'
    → Splits (k x) b' t' y b'' t''
    → Splits (m >>= k) b t y b'' t''
unfolding ◌>>=◌
Splits-bind {m = m} k sm sk = record {
  at = λ s eb et. let (result, left, right) = sm.at s eb et in rw result (sk.at (m s).1 left right);
}

pub Splits-on_bottom :
    {A : Type 0} {m : Exec Io A} {b b' : MmapFile} {x : A} (t : MmapFile)
    → Runs m b x b'
    → Splits (on_bottom m) b t x b' t
Splits-on_bottom t runs = record {
  at = λ s eb et.
      let (result, left) = runs.at (record { mmap = s.bottom; stats = s.stats }) eb in
      (result, left, et);
}

pub Splits-on_top :
    {A : Type 0} {m : Exec Io A} {t t' : MmapFile} {x : A} (b : MmapFile)
    → Runs m t x t'
    → Splits (on_top m) b t x b t'
Splits-on_top b runs = record {
  at = λ s eb et.
      let (result, left) = runs.at (record { mmap = s.top; stats = s.stats }) et in
      (result, eb, left);
}

-- the keys of the halves
abbrev pub low : Hasher → ℕ → Bytes → Bool
low hash mid q = ltb (shard_selector (parted_hash hash q)) mid

abbrev pub high : Hasher → ℕ → Bytes → Bool
high hash mid q = if low hash mid q then false else true
