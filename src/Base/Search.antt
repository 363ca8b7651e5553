-- ===== src/Base/Search.antt =====
-- The first index of a range that passes a test (`Iterator::position`), and what that means.
use candystore.Base.Logic.{if◌then◌else◌, Bool-cases, Option-cases}
use Prim.Native.Nat.{ℕ, zero, suc, ◌+◌, ◌-◌, ◌≤◌, ◌<◌}
use mathlib.Core.Path.{◌≡◌, refl, sym, ◌∙◌}
use mathlib.Core.Logic.{inl, inr}
use mathlib.Core.Bool.{Bool, true, false}
use mathlib.Core.Option.{Option, none, some}
use native.Mathlib.Omega.{arith}
use native.Mathlib.Decide.{ℕ_discrete, dec_lt}

-- the first of `start, start + 1, …, start + n - 1` at which `p` holds
unfoldable pub position : (ℕ → Bool) → ℕ → ℕ → Option ℕ
position p zero start = none
position p (suc n) start =
    let rest = position p n (start + 1) in if p start then some start else rest

module _ (p : ℕ → Bool) where
  abbrev pub NoneIn : ℕ → ℕ → Type 0
  NoneIn lo hi = (j : ℕ) → lo ≤ j → j < hi → p j ≡ false

  pub record IsFirst (n start i : ℕ) : Type 0 where
    pub from : start ≤ i
    pub below : i < start + n
    pub holds : p i ≡ true
    pub before : NoneIn start i

  NoneIn-cons : (lo hi : ℕ) → p lo ≡ false → NoneIn (lo + 1) hi → NoneIn lo hi
  NoneIn-cons lo hi h rest j a b = elim (ℕ_discrete lo j) [
    | yes e ↦ rw (← e) h
    | no ne ↦ rest j (omega arith) b
  ]

  pub position-IsFirst : (n start i : ℕ) → position p n start ≡ some i → IsFirst n start i
  unfolding position
  position-IsFirst zero start i h = cc
  position-IsFirst (suc n) start i h = elim (Bool-cases (p start)) [
    | inl t ↦
        let e : start ≡ i = ground arith in
        rw (← e) (record {
          from = omega arith;
          below = omega arith;
          holds = t;
          before = λ j a b. absurd (omega arith);
        })
    | inr f ↦
        let r = position-IsFirst n (start + 1) i (ground arith) in
        record {
          from = omega arith;
          below = omega arith;
          holds = r.holds;
          before = NoneIn-cons start i f r.before;
        }
  ]

  pub position-NoneIn : (n start : ℕ) → position p n start ≡ none → NoneIn start (start + n)
  unfolding position
  position-NoneIn zero start h = λ j a b. absurd (omega arith)
  position-NoneIn (suc n) start h = elim (Bool-cases (p start)) [
    | inl t ↦ absurd (ground arith)
    | inr f ↦
        NoneIn-cons start (start + suc n) f
          (λ j a b. position-NoneIn n (start + 1) (ground arith) j a (omega arith))
  ]

  pub position-eq-none : (n start : ℕ) → NoneIn start (start + n) → position p n start ≡ none
  unfolding position
  position-eq-none zero start h = refl
  position-eq-none (suc n) start h =
      rw (h start (omega arith) (omega arith))
        (position-eq-none n (start + 1) (λ j a b. h j (omega arith) (omega arith)))

  pub position-eq-some : (n start i : ℕ) → IsFirst n start i → position p n start ≡ some i
  unfolding position
  position-eq-some zero start i r = absurd (omega arith)
  position-eq-some (suc n) start i r = elim (ℕ_discrete start i) [
    | yes e ↦ rw (e, r.holds)
    | no ne ↦ rw (r.before start (omega arith) (omega arith)) (
        position-eq-some n (start + 1) i (record {
          from = omega arith;
          below = omega arith;
          holds = r.holds;
          before = λ j a b. r.before j (omega arith) b;
        }))
  ]

  -- a prefix without a hit can be skipped
  pub position_skip :
      (n start m : ℕ)
      → start ≤ m
      → m ≤ start + n
      → NoneIn start m
      → position p n start ≡ position p (start + n - m) m
  position_skip n start m a b h = elim (Option-cases (position p (start + n - m) m)) [
    | inl e ↦
        position-eq-none n start (λ j lo hi. elim (dec_lt j m) [
          | yes early ↦ h j lo early
          | no late ↦ position-NoneIn (start + n - m) m e j (omega arith) (omega arith)
        ])
        ∙ sym e
    | inr (i, e) ↦
        let r = position-IsFirst (start + n - m) m i e in
        position-eq-some n start i (record {
          from = omega arith;
          below = omega arith;
          holds = r.holds;
          before = λ j lo hi. elim (dec_lt j m) [
            | yes early ↦ h j lo early
            | no late ↦ r.before j (omega arith) hi
          ];
        })
        ∙ sym e
  ]

-- one more index at the end: it matters only if it is the first that passes
module _ (p : ℕ → Bool) (n : ℕ) where
  pub position_snoc_later : (i : ℕ) → position p n 0 ≡ some i → position p (n + 1) 0 ≡ some i
  position_snoc_later i e =
      let r = position-IsFirst p n 0 i e in
      position-eq-some p (n + 1) 0 i (record {
        from = omega arith;
        below = omega (arith, r.below);
        holds = r.holds;
        before = r.before;
      })

  pub position_snoc_miss : p n ≡ false → position p (n + 1) 0 ≡ position p n 0
  position_snoc_miss f = elim (Option-cases (position p n 0)) [
    | inl e ↦
        position-eq-none p (n + 1) 0 (λ j lo hi. elim (ℕ_discrete j n) [
          | yes last ↦ rw last f
          | no ne ↦ position-NoneIn p n 0 e j lo (omega arith)
        ])
        ∙ sym e
    | inr (i, e) ↦ position_snoc_later i e ∙ sym e
  ]

  pub position_snoc_hit : position p n 0 ≡ none → p n ≡ true → position p (n + 1) 0 ≡ some n
  position_snoc_hit e t = position-eq-some p (n + 1) 0 n (record {
    from = omega arith;
    below = omega arith;
    holds = t;
    before = λ j lo hi. position-NoneIn p n 0 e j lo (omega arith);
  })

pub position_congr :
    (p q : ℕ → Bool) (n start : ℕ)
    → ((i : ℕ) → start ≤ i → i < start + n → p i ≡ q i)
    → position p n start ≡ position q n start
unfolding position
position_congr p q zero start h = refl
position_congr p q (suc n) start h = rw (
  h start (omega arith) (omega arith),
  position_congr p q n (start + 1) (λ i a b. h i (omega arith) (omega arith)),
)
