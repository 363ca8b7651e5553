-- ===== src/Base/Maps.antt =====
-- The map that a store stands for.
use mathlib.Core.Path.{◌≡◌, refl, sym, ap, ◌∙◌}
use mathlib.Core.Logic.{◌≢◌, inl, inr}
use mathlib.Core.Option.{Option, none}
use candystore.Base.Logic.{if◌then◌else◌, Bool-cases}
use candystore.Base.Bytes.{Bytes, bytes_eq, bytes_eq_iff, bytes_eq_self}

-- a function on byte strings that is changed at one
abbrev pub at_key {ℓ} : {A : Type ℓ} → Bytes → A → (Bytes → A) → Bytes → A
at_key key v f q = if bytes_eq q key then v else f q

module _ {ℓ} {A : Type ℓ} (k : Bytes) (o : A) (f : Bytes → A) where
  pub at_key_self : at_key k o f k ≡ o
  at_key_self = rw (bytes_eq_self k) refl

  pub at_key_ne : (q : Bytes) → q ≢ k → at_key k o f q ≡ f q
  at_key_ne q ne = elim (Bool-cases (bytes_eq q k)) [
    | inl t ↦ absurd (ne ((bytes_eq_iff q k).0 t))
    | inr e ↦ rw e refl
  ]

  pub at_key_same : f k ≡ o → (q : Bytes) → at_key k o f q ≡ f q
  at_key_same e q = elim (Bool-cases (bytes_eq q k)) [
    | inl t ↦ rw t (sym e ∙ sym (ap f ((bytes_eq_iff q k).0 t)))
    | inr no_key ↦ rw no_key refl
  ]

abbrev pub Map : Type 0
Map = Bytes → Option Bytes

abbrev pub put : Bytes → Option Bytes → Map → Map
put key v f q = if bytes_eq q key then v else f q

abbrev pub no_keys : Map
no_keys q = none

pub put_self : (k : Bytes) (o : Option Bytes) (f : Map) → put k o f k ≡ o
put_self k o f = at_key_self k o f

pub put_ne : (k q : Bytes) (o : Option Bytes) (f : Map) → q ≢ k → put k o f q ≡ f q
put_ne k q o f ne = at_key_ne k o f q ne
