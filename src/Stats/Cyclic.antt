-- ===== src/Stats/Cyclic.antt =====
-- `CyclicArr<T, N>` of src/stats.rs: a ring that remembers the last N values pushed. The array is a
-- function of its index, and `N` is the argument `n`.
pub mod Laws
use candystore.Base.Word.{wrapping_add}
use candystore.Base.{ℕ, zero, suc, ◌+◌, ◌-◌, ◌%◌, List, [], ◌∷◌, update, ltb, if◌then◌else◌}

pub record CyclicArr (T : Type 0) : Type 0 where
  pub idx : ℕ
  pub arr : ℕ → T

module _ {T : Type 0} where
  -- `default`: every cell holds the default of `T`
  abbrev pub empty : T → CyclicArr T
  empty d = record { idx = 0; arr = λ _. d }

  unfoldable pub push : ℕ → T → CyclicArr T → CyclicArr T
  push n val c = record { idx = wrapping_add c.idx 1; arr = update c.arr (c.idx % n) val }

  -- `for i in 0..N { arr[i] = default }`
  unfoldable pub clear : ℕ → T → CyclicArr T → CyclicArr T
  clear n d c = record { idx = 0; arr = λ i. if ltb i n then d else c.arr i }

  -- the cells `lo..lo + k`, read modulo `n`
  unfoldable pub cells : ℕ → CyclicArr T → ℕ → ℕ → List T
  cells n c zero lo = []
  cells n c (suc k) lo = c.arr (lo % n) ∷ cells n c k (lo + 1)

  -- `(idx.checked_sub(N).unwrap_or(0)..idx).map(|idx| &arr[idx % N])`
  unfoldable pub iter : ℕ → CyclicArr T → List T
  unfolding cells
  iter n c = let lo = c.idx - n in cells n c (c.idx - lo) lo
