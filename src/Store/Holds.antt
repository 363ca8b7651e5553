-- ===== src/Store/Holds.antt =====
-- What calls do to a part of the store that stands for some state, in every valid state of the
-- store.
use candystore.Base.{ℕ, suc, ◌+◌, arith, ◌≡◌, refl, sym, ap, subst, ◌∙◌, Option}
use candystore.Base.Bytes.{Bytes}
use candystore.Base.Maps.{Map, put, put_ne}
use candystore.Base.Outcome.{Exec, ok, pure, ◌>>=◌}
use candystore.Store.Raw.{View, Gives}

-- how a part of the map stands for a state, and the keys of that part
pub record Part (C : Type 0) : Type 1 where
  pub Rep : Map → C → Type 0
  pub Mine : Bytes → Type 0
  pub congr : (f g : Map) (c : C) → ((q : Bytes) → g q ≡ f q) → Rep f c → Rep g c

module _ {S C : Type 0} (v : View S) (p : Part C) where
  -- what a run from one state leaves, with room for `n` insertions
  pub record Done {A : Type 0} (n : ℕ) (m : Exec S A) (s : S) (x : A) (c' : C) : Type 0 where
    pub result : (m s).0 ≡ ok x
    pub valid : v.Valid n (m s).1
    pub rep : p.Rep (v.map (m s).1) c'
    pub frame : (q : Bytes) → (p.Mine q → ⊥) → v.map (m s).1 q ≡ v.map s q

  -- there is a number of insertions such that, from every valid state that has room for them and
  -- holds `c`, `m` returns `x` without an error, and leaves a valid state that holds `c'`, reads as
  -- before under every other key, and has the room that is left
  pub record Holds {A : Type 0} (m : Exec S A) (c : C) (x : A) (c' : C) : Type 0 where
    pub insertions : ℕ
    pub at :
        (n k : ℕ) → k ≡ insertions + n → (s : S) → v.Valid k s → p.Rep (v.map s) c → Done n m s x c'

module _ {S C : Type 0} {v : View S} {p : Part C} where
  -- a call that inserts nothing, and one that inserts once
  pub keeping_call :
      {A : Type 0} {m : Exec S A} {c c' : C} {x : A}
      → ((n : ℕ) (s : S) → v.Valid n s → p.Rep (v.map s) c → Done v p n m s x c')
      → Holds v p m c x c'
  keeping_call done = record {
    insertions = 0;
    at = λ n k e s valid rep. done n s (subst (λ j. v.Valid j s) (omega (arith, e)) valid) rep;
  }

  pub writing_call :
      {A : Type 0} {m : Exec S A} {c c' : C} {x : A}
      → ((n : ℕ) (s : S) → v.Valid (suc n) s → p.Rep (v.map s) c → Done v p n m s x c')
      → Holds v p m c x c'
  writing_call done = record {
    insertions = 1;
    at = λ n k e s valid rep. done n s (subst (λ j. v.Valid j s) (omega (arith, e)) valid) rep;
  }

  pub Holds-pure : {A : Type 0} (x : A) (c : C) → Holds v p (pure x) c x c
  Holds-pure x c =
      keeping_call (λ n s valid rep. record {
        result = refl;
        valid = valid;
        rep = rep;
        frame = λ q other. refl;
      })

  pub Holds-bind :
      {A B : Type 0} {m : Exec S A} (k : A → Exec S B) {c c' c'' : C} {x : A} {y : B}
      → Holds v p m c x c'
      → Holds v p (k x) c' y c''
      → Holds v p (m >>= k) c y c''
  unfolding ◌>>=◌
  Holds-bind {m = m} k {c'' = c''} dm dk = record {
    insertions = dm.insertions + dk.insertions;
    at = λ n j e s valid rep.
        let a = dm.at (dk.insertions + n) j (omega (arith, e)) s valid rep in
        let b = dk.at n (dk.insertions + n) refl (m s).1 a.valid a.rep in
        let runs : (m >>= k) s ≡ k _ (m s).1 = rw a.result refl in
        record {
          result = ap (λ r. r.0) runs ∙ b.result;
          valid = subst (λ r. v.Valid n r.1) (sym runs) b.valid;
          rep = subst (λ r. p.Rep (v.map r.1) c'') (sym runs) b.rep;
          frame = λ q other. ap (λ r. v.map r.1 q) runs ∙ b.frame q other ∙ a.frame q other;
        };
  }

  pub Holds-eq :
      {A : Type 0} {m m' : Exec S A} {c c' : C} {x : A}
      → m ≡ m'
      → Holds v p m' c x c'
      → Holds v p m c x c'
  Holds-eq {c = c} {c' = c'} {x} e d = subst (λ k. Holds v p k c x c') (sym e) d

  pub Holds-told :
      {A : Type 0} {m : Exec S A} {c c' : C} {x y : A}
      → x ≡ y
      → Holds v p m c x c'
      → Holds v p m c y c'
  Holds-told {m = m} {c} {c'} e d = subst (λ z. Holds v p m c z c') e d

  -- a call that leaves the map alone
  pub kept_map :
      {A : Type 0} {n : ℕ} {m : Exec S A} {s : S} {x y : A} {c : C}
      → x ≡ y
      → p.Rep (v.map s) c
      → Gives v n m s x (v.map s)
      → Done v p n m s y c
  kept_map {c = c} e r g = record {
    result = g.result ∙ ap ok e;
    valid = g.valid;
    rep = p.congr _ _ c g.map r;
    frame = λ q other. g.map q;
  }

  -- a call that changes the value of one key of the part
  pub put_map :
      {A : Type 0} {n : ℕ} {m : Exec S A} {s : S} {x y : A} {c' : C} (k : Bytes)
      {o o' : Option Bytes}
      → x ≡ y
      → o ≡ o'
      → p.Mine k
      → p.Rep (put k o' (v.map s)) c'
      → Gives v n m s x (put k o (v.map s))
      → Done v p n m s y c'
  put_map {n = n} {m} {s} {c' = c'} k {o} {o'} e eo mine r g =
      let same : (q : Bytes) → v.map (m s).1 q ≡ put k o' (v.map s) q =
        λ q. g.map q ∙ ap (λ z. put k z (v.map s) q) eo in
      record {
        result = g.result ∙ ap ok e;
        valid = g.valid;
        rep = p.congr _ _ c' same r;
        frame =
            λ q other. same q ∙ put_ne k q o' (v.map s) (λ eq. other (subst p.Mine (sym eq) mine));
      }
