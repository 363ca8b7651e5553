-- ===== src/Stats/Cyclic/Laws.antt =====
-- The ring returns the last N values pushed, oldest first.
use candystore.Base.{
  ℕ, zero, suc, ◌+◌, ◌-◌, ◌%◌, ◌^◌, ◌≤◌, ◌<◌, ◌≡◌, refl, sym, subst, ◌∙◌, update, update_self,
  update_ne, List, [], ◌∷◌, ◌++◌, arith,
}
use candystore.Base.Bytes.{length, length-append, drop}
use candystore.Stats.Cyclic.{CyclicArr, empty, push, cells, iter, clear}
use mathlib.Core.List.{append_assoc, append-nil}
use native.Mathlib.Decide.{dec_lt}

mod-ne : (n i j : ℕ) → j < i → i < j + n → (i % n ≡ j % n) → ⊥
mod-ne n i j lt near e = grind arith

module _ {T : Type 0} where
  -- the last `n` values of a list
  unfoldable pub take_last : ℕ → List T → List T
  take_last n xs = drop (length xs - n) xs

  unfoldable pub pushes : ℕ → List T → CyclicArr T → CyclicArr T
  pushes n [] c = c
  pushes n (x ∷ xs) c = pushes n xs (push n x c)

  abbrev at : T → List T → ℕ → T
  at d [] i = d
  at d (x ∷ xs) zero = x
  at d (x ∷ xs) (suc i) = at d xs i

  drop-all : (xs : List T) (k : ℕ) → length xs ≤ k → drop k xs ≡ []
  drop-all [] zero h = refl
  drop-all [] (suc k) h = refl
  drop-all (x ∷ xs) zero h = absurd (omega arith)
  drop-all (x ∷ xs) (suc k) h = drop-all xs k (omega arith)

  drop-at : (d : T) (xs : List T) (k : ℕ) → k < length xs → drop k xs ≡ at d xs k ∷ drop (k + 1) xs
  drop-at d [] k h = absurd (omega arith)
  drop-at d (x ∷ xs) zero h = refl
  drop-at d (x ∷ xs) (suc k) h = ground (arith, drop-at d xs k)

  -- the ring holds the values of `xs` that are recent enough
  record Remembers (n : ℕ) (d : T) (c : CyclicArr T) (xs : List T) : Type 0 where
    count : c.idx ≡ length xs
    recent : (j : ℕ) → j < length xs → length xs ≤ j + n → c.arr (j % n) ≡ at d xs j

  at-append_left : (d : T) (xs ys : List T) (j : ℕ) → j < length xs → at d (xs ++ ys) j ≡ at d xs j
  at-append_left d [] ys j h = absurd (omega arith)
  at-append_left d (x ∷ xs) ys zero h = refl
  at-append_left d (x ∷ xs) ys (suc j) h = at-append_left d xs ys j (omega arith)

  at-append_last : (d : T) (xs : List T) (x : T) (j : ℕ) → j ≡ length xs → at d (xs ++ x ∷ []) j ≡ x
  at-append_last d [] x zero h = refl
  at-append_last d [] x (suc j) h = absurd (omega arith)
  at-append_last d (y ∷ xs) x zero h = absurd (omega arith)
  at-append_last d (y ∷ xs) x (suc j) h = at-append_last d xs x j (omega arith)

  module _ (n : ℕ) (pos : 0 < n) (d : T) where
    Remembers-push :
        (c : CyclicArr T) (xs : List T) (x : T)
        → length xs + 1 < 2 ^ 64
        → Remembers n d c xs
        → Remembers n d (push n x c) (xs ++ x ∷ [])
    unfolding push
    Remembers-push c xs x word r = record {
      count = omega (arith, length-append xs (x ∷ []), r.count, word);
      recent = λ j below near. stays j below near;
    }
      where
        size : length (xs ++ x ∷ []) ≡ length xs + 1
        size = omega (arith, length-append xs (x ∷ []))

        stays :
            (j : ℕ)
            → j < length (xs ++ x ∷ [])
            → length (xs ++ x ∷ []) ≤ j + n
            → update c.arr (c.idx % n) x (j % n) ≡ at d (xs ++ x ∷ []) j
        stays j below near = elim (dec_lt j (length xs)) [
          | yes old ↦
              update_ne c.arr (c.idx % n) (j % n) x
                (λ e. mod-ne n c.idx j (omega (arith, r.count)) (omega (arith, r.count, size)) e)
              ∙ r.recent j old (omega (arith, size))
              ∙ sym (at-append_left d xs (x ∷ []) j old)
          | no new ↦
              let here : j ≡ length xs = omega (arith, size) in
              let here' : c.idx ≡ j = omega (arith, r.count) in
              rw (here', at-append_last d xs x j here) (update_self c.arr (j % n) x)
        ]

    Remembers-pushes :
        (c : CyclicArr T) (xs ys : List T)
        → length xs + length ys < 2 ^ 64
        → Remembers n d c xs
        → Remembers n d (pushes n ys c) (xs ++ ys)
    unfolding pushes
    Remembers-pushes c xs [] word r = rw append-nil r
    Remembers-pushes c xs (y ∷ ys) word r =
        subst (Remembers n d (pushes n ys (push n y c))) (append_assoc xs (y ∷ []) ys) (
          Remembers-pushes (push n y c) (xs ++ y ∷ []) ys
            (omega (arith, word, length-append xs (y ∷ [])))
            (Remembers-push c xs y (omega (arith, word)) r))

    cells-drop :
        (c : CyclicArr T) (xs : List T) (k lo : ℕ)
        → Remembers n d c xs
        → lo + k ≡ length xs
        → length xs ≤ lo + n
        → cells n c k lo ≡ drop lo xs
    unfolding cells
    cells-drop c xs zero lo r e near = sym (drop-all xs lo (omega arith))
    cells-drop c xs (suc k) lo r e near =
        rw
          (r.recent lo (omega arith) near, cells-drop c xs k (lo + 1) r (omega arith) (omega arith))
          (sym (drop-at d xs lo (omega arith)))

    iter-pushes_from :
        (c : CyclicArr T) (xs : List T)
        → length xs < 2 ^ 64
        → c.idx ≡ 0
        → iter n (pushes n xs c) ≡ take_last n xs
    unfolding iter take_last
    iter-pushes_from c xs word e =
        let r =
          Remembers-pushes c [] xs (omega (arith, word))
            (record { count = e; recent = λ j below near. absurd (omega arith) }) in
        rw r.count (
          cells-drop _ xs (length xs - (length xs - n)) (length xs - n) r (omega arith)
            (omega arith))

    -- For N > 0 and any default value: after fewer than 2^64 pushes onto a new ring, or onto a ring
    -- that was cleared, whatever it held, the iterator returns the last N of the pushed values,
    -- oldest first.
    pub iter-pushes :
        (c : CyclicArr T) (xs : List T)
        → length xs < 2 ^ 64
        → (iter n (pushes n xs (empty d)) ≡ take_last n xs)
          × (iter n (pushes n xs (clear n d c)) ≡ take_last n xs)
    unfolding clear
    iter-pushes c xs word =
        (iter-pushes_from (empty d) xs word refl, iter-pushes_from (clear n d c) xs word refl)
