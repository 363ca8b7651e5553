-- ===== src/Store/Chunks.antt =====
-- The chunks of a value: none is larger than the bound, and joined they are the value.
use candystore.Base.{ℕ, zero, suc, ◌+◌, ◌<◌, ◌≤◌, ◌≡◌, refl, ap, ◌∙◌, List, [], ◌∷◌, ◌++◌, arith}
use candystore.Base.Bytes.{Bytes, length, take, drop}
use candystore.Base.Suffix.{take-drop}
use candystore.Shard.Mmap.{InternalConfig}
use candystore.Store.{max_total_value_size}
use candystore.Store.Big.{chunks}
use candystore.Queue.Extend.{AllFit}

abbrev pub concat : List Bytes → Bytes
concat [] = []
concat (c ∷ cs) = c ++ concat cs

length-take : (n : ℕ) (xs : Bytes) → length (take n xs) ≤ n
length-take zero xs = omega arith
length-take (suc n) [] = omega arith
length-take (suc n) (x ∷ xs) = omega (arith, length-take n xs)

length-drop : (n : ℕ) (xs : Bytes) → length (drop n xs) ≤ length xs
length-drop zero xs = omega arith
length-drop (suc n) [] = omega arith
length-drop (suc n) (x ∷ xs) = omega (arith, length-drop n xs)

length-drop_some : (n : ℕ) (x : ℕ) (xs : Bytes) → 0 < n → length (drop n (x ∷ xs)) ≤ length xs
length-drop_some zero x xs lt = absurd (omega arith)
length-drop_some (suc n) x xs lt = length-drop n xs

module _ (size : ℕ) (some_size : 0 < size) where
  pub concat-chunks :
      (fuel : ℕ) (val : Bytes) → length val ≤ fuel → concat (chunks size fuel val) ≡ val
  unfolding chunks
  concat-chunks zero [] le = refl
  concat-chunks zero (b ∷ bs) le = absurd (omega arith)
  concat-chunks (suc fuel) [] le = refl
  concat-chunks (suc fuel) (b ∷ bs) le =
      ap (λ t. take size (b ∷ bs) ++ t)
        (concat-chunks fuel (drop size (b ∷ bs))
          (omega (arith, length-drop_some size b bs some_size, le)))
      ∙ take-drop size (b ∷ bs)

  pub length-chunks : (fuel : ℕ) (val : Bytes) → length (chunks size fuel val) ≤ length val
  unfolding chunks
  length-chunks zero val = omega arith
  length-chunks (suc fuel) [] = omega arith
  length-chunks (suc fuel) (b ∷ bs) =
      omega (arith, length-chunks fuel (drop size (b ∷ bs)), length-drop_some size b bs some_size)

  pub chunks-AllFit :
      (config : InternalConfig) (key : Bytes) (fuel : ℕ) (val : Bytes)
      → size ≤ max_total_value_size
      → length key + 9 + size ≤ config.max_shard_size
      → AllFit config key (chunks size fuel val)
  unfolding chunks AllFit
  chunks-AllFit config key zero val small entry = tt
  chunks-AllFit config key (suc fuel) [] small entry = tt
  chunks-AllFit config key (suc fuel) (b ∷ bs) small entry = (
    record {
      size = omega (arith, length-take size (b ∷ bs), small);
      entry = omega (arith, length-take size (b ∷ bs), entry);
    },
    chunks-AllFit config key fuel (drop size (b ∷ bs)) small entry,
  )
