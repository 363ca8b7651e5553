-- ===== src/Shard/Disk/Laws.antt =====
-- Reads after a write: the range written, and the ranges below it.
use candystore.Base.{
  ℕ, zero, suc, ◌+◌, ◌-◌, ◌≤◌, ◌<◌, ◌≡◌, refl, sym, ap, ◌∙◌, [], ◌∷◌, ◌++◌, arith,
}
use candystore.Base.Bytes.{Bytes, length, length-append, take, drop, take-append, drop-append}
use candystore.Shard.Disk.{File, nth, bytes_at, write_all_at}

pub bytes_at_congr :
    (g h : ℕ → ℕ) (n off : ℕ)
    → ((i : ℕ) → off ≤ i → i < off + n → g i ≡ h i)
    → bytes_at g n off ≡ bytes_at h n off
unfolding bytes_at
bytes_at_congr g h zero off e = refl
bytes_at_congr g h (suc n) off e = rw (
  e off (omega arith) (omega arith),
  bytes_at_congr g h n (off + 1) (λ i a b. e i (omega arith) (omega arith)),
)

pub bytes_at-nth :
    (g : ℕ → ℕ) (buf : Bytes) (off : ℕ)
    → ((i : ℕ) → i < length buf → g (off + i) ≡ nth buf i)
    → bytes_at g (length buf) off ≡ buf
unfolding bytes_at
bytes_at-nth g [] off e = refl
bytes_at-nth g (x ∷ xs) off e =
    let zeroth : off ≡ off + 0 = omega arith in
    let first : g off ≡ x = ap g zeroth ∙ e 0 (omega arith) in
    rw (first, bytes_at-nth g xs (off + 1) (λ i h. shifted i ∙ e (suc i) (omega arith)))
  where
    shifted : (i : ℕ) → g (off + 1 + i) ≡ g (off + suc i)
    shifted i = let same : off + 1 + i ≡ off + suc i = omega arith in ap g same

pub bytes_at-add :
    (g : ℕ → ℕ) (m n off : ℕ) → bytes_at g (m + n) off ≡ bytes_at g m off ++ bytes_at g n (off + m)
unfolding bytes_at
bytes_at-add g zero n off =
    let left : 0 + n ≡ n = omega arith in
    let right : off + 0 ≡ off = omega arith in rw (left, right)
bytes_at-add g (suc m) n off =
    let left : suc m + n ≡ suc (m + n) = omega arith in
    let right : off + suc m ≡ off + 1 + m = omega arith in
    rw (left, right, bytes_at-add g m n (off + 1))

pub length-bytes_at : (g : ℕ → ℕ) (n off : ℕ) → length (bytes_at g n off) ≡ n
unfolding bytes_at
length-bytes_at g zero off = refl
length-bytes_at g (suc n) off = ap suc (length-bytes_at g n (off + 1))

nth-at : (buf : Bytes) (i j : ℕ) → i ≡ j → nth buf i ≡ nth buf j
nth-at buf i j e = ap (nth buf) e

module _ (f : File) (buf : Bytes) (off : ℕ) where
  -- The range written reads back as the buffer.
  pub bytes_at-write_self : bytes_at (write_all_at f buf off).byte (length buf) off ≡ buf
  unfolding write_all_at
  bytes_at-write_self = bytes_at-nth _ buf off (λ i h. ground (arith, nth-at buf (off + i - off) i))

  -- A range that ends before it, inside the file, reads as before.
  pub bytes_at-write_below :
      (n lo : ℕ)
      → lo + n ≤ off
      → lo + n ≤ f.len
      → bytes_at (write_all_at f buf off).byte n lo ≡ bytes_at f.byte n lo
  unfolding write_all_at
  bytes_at-write_below n lo a b = bytes_at_congr _ _ n lo (λ i p q. ground arith)

-- The two parts of a buffer read back separately.
pub bytes_at-write_parts :
    (f : File) (xs ys : Bytes) (off : ℕ)
    → let g = (write_all_at f (xs ++ ys) off).byte in
      (bytes_at g (length xs) off ≡ xs) × (bytes_at g (length ys) (off + length xs) ≡ ys)
bytes_at-write_parts f xs ys off = (
  sym (take-append n a b (sym size)) ∙ ap (take n) whole ∙ take-append n xs ys refl,
  sym (drop-append n a b (sym size)) ∙ ap (drop n) whole ∙ drop-append n xs ys refl,
)
  where
    g : ℕ → ℕ
    g = (write_all_at f (xs ++ ys) off).byte

    n : ℕ
    n = length xs

    a : Bytes
    a = bytes_at g n off

    b : Bytes
    b = bytes_at g (length ys) (off + n)

    size : length a ≡ n
    size = length-bytes_at g n off

    whole : a ++ b ≡ xs ++ ys
    whole =
        sym (bytes_at-add g n (length ys) off)
        ∙ ap (λ k. bytes_at g k off) (sym (length-append xs ys))
        ∙ bytes_at-write_self f (xs ++ ys) off
