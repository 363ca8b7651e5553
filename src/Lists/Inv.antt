-- ===== src/Lists/Inv.antt =====
-- When a list's descriptor, chain and items agree, and what the list holds.
use candystore.Base.{
  ℕ, ◌+◌, ◌^◌, ◌<◌, ◌≡◌, ◌≢◌, refl, sym, ap, ◌∙◌, Option, none, some, List, update, update_self,
  update_ne, inl, inr, Bool-cases, false, arith,
}
use candystore.Base.Bytes.{Bytes, length, bytes_eq, bytes_eq_iff}
use candystore.Base.Maps.{at_key, at_key_self, at_key_ne}
use candystore.Queue.Contents.{Item, contents, DescInv}
use candystore.Queue.Drop.{clash}
use candystore.Lists.Cells.{ListCells}
use mathlib.Core.Bool.{false≢true}
use native.Mathlib.Decide.{ℕ_discrete}

-- an index leads to the item that has this index, and an item is led to by its index
pub record Linked (chain : ℕ → Option Bytes) (item : Bytes → Option (Bytes × ℕ)) : Type 0 where
  pub leads : (i : ℕ) (k : Bytes) → chain i ≡ some k → (val : Bytes) × (item k ≡ some (val, i))
  pub led : (k val : Bytes) (i : ℕ) → item k ≡ some (val, i) → chain i ≡ some k

-- the size of an entry is a machine word
abbrev pub Short : (Bytes → Option (Bytes × ℕ)) → Type 0
Short item = (k val : Bytes) (i : ℕ) → item k ≡ some (val, i) → length k + length val + 17 < 2 ^ 64

pub record ListInv (c : ListCells) : Type 0 where
  pub range : DescInv c.chain c.desc
  pub links : Linked c.chain c.item
  pub short : Short c.item

-- the keys of the items with their indices, in their order
abbrev pub members : ListCells → List Item
members c = contents (record { desc = c.desc; item = c.chain })

-- an entry without its index
abbrev pub value_of : Option (Bytes × ℕ) → Option Bytes
value_of none = none
value_of (some (val, i)) = some val

pub some_injective : {A : Type 0} {x y : A} → some x ≡ some y → x ≡ y
some_injective {A} {x} e = ap (λ o. elim o [ none ↦ x | some z ↦ z ]) e

pub some-left : {x y : Bytes × ℕ} → some x ≡ some y → x.0 ≡ y.0
some-left e = ap (λ x. x.0) (some_injective e)

pub some-right : {x y : Bytes × ℕ} → some x ≡ some y → x.1 ≡ y.1
some-right e = ap (λ x. x.1) (some_injective e)

module _ {item : Bytes → Option (Bytes × ℕ)} (short : Short item) where
  pub Short-new :
      (k val : Bytes) (i : ℕ)
      → length k + length val + 17 < 2 ^ 64
      → Short (at_key k (some (val, i)) item)
  Short-new k val i small q w j e = elim (Bool-cases (bytes_eq q k)) [
    | inl t ↦
        let now : some (val, i) ≡ some (w, j) = sym (rw t refl) ∙ e in
        omega (arith, small, ap length ((bytes_eq_iff q k).0 t), ap length (some-left now))
    | inr f ↦ short q w j (sym (rw f refl) ∙ e)
  ]

  pub Short-less : (k : Bytes) → Short (at_key k none item)
  Short-less k q w j e = elim (Bool-cases (bytes_eq q k)) [
    | inl t ↦ let gone : none ≡ some (w, j) = sym (rw t refl) ∙ e in absurd (grind (arith, gone))
    | inr f ↦ short q w j (sym (rw f refl) ∙ e)
  ]

module _ {chain : ℕ → Option Bytes} {item : Bytes → Option (Bytes × ℕ)}
    (l : Linked chain item) where
  pub chain_key_unique : {i j : ℕ} {k : Bytes} → chain i ≡ some k → chain j ≡ some k → i ≡ j
  chain_key_unique {i} {j} {k} e f = some-right (sym (l.leads i k e).1 ∙ (l.leads j k f).1)

  -- an item at an index that nothing stands at
  pub Linked-new :
      (i : ℕ) (k val : Bytes)
      → item k ≡ none
      → chain i ≡ none
      → Linked (update chain i (some k)) (at_key k (some (val, i)) item)
  Linked-new i k val fresh free = record {
    leads = λ j q e. elim (ℕ_discrete i j) [
      | yes same ↦
          let e' : some k ≡ some q =
            sym (update_self chain i (some k)) ∙ ap (update chain i (some k)) same ∙ e in
          (
            val,
            ap (at_key k (some (val, i)) item) (sym (some_injective e'))
                ∙ at_key_self k (some (val, i)) item
                ∙ ap (λ n. some (val, n)) same,
          )
      | no ne ↦
          let found = l.leads j q (sym (update_ne chain i j (some k) ne) ∙ e) in
          (
            found.0,
            at_key_ne k (some (val, i)) item q (λ same. grind (arith, ap item same, found.1, fresh))
                ∙ found.1,
          )
    ];
    led = λ q w j e. elim (Bool-cases (bytes_eq q k)) [
      | inl t ↦
          let same = (bytes_eq_iff q k).0 t in
          let e' : some (val, i) ≡ some (w, j) =
            sym (at_key_self k (some (val, i)) item)
            ∙ ap (at_key k (some (val, i)) item) (sym same)
            ∙ e in
          ap (update chain i (some k)) (sym (some-right e'))
          ∙ update_self chain i (some k)
          ∙ ap some (sym same)
      | inr f ↦
          let was : item q ≡ some (w, j) = sym (rw f refl) ∙ e in
          update_ne chain i j (some k) (λ same. clash free (ap chain same ∙ l.led q w j was))
          ∙ l.led q w j was
    ];
  }

  -- an item with another value
  pub Linked-same :
      (i : ℕ) (k old val : Bytes)
      → item k ≡ some (old, i)
      → Linked chain (at_key k (some (val, i)) item)
  Linked-same i k old val was = record {
    leads = λ j q e. elim (Bool-cases (bytes_eq q k)) [
      | inl t ↦
          let same = (bytes_eq_iff q k).0 t in
          let at : j ≡ i = some-right (sym (l.leads j q e).1 ∙ ap item same ∙ was) in
          (val, rw t (ap (λ n. some (val, n)) (sym at)))
      | inr f ↦ ((l.leads j q e).0, rw f (l.leads j q e).1)
    ];
    led = λ q w j e. elim (Bool-cases (bytes_eq q k)) [
      | inl t ↦
          let same = (bytes_eq_iff q k).0 t in
          let now : some (val, i) ≡ some (w, j) = sym (rw t refl) ∙ e in
          let at : i ≡ j = some-right now in
          ap chain (sym at) ∙ l.led k old i was ∙ ap some (sym same)
      | inr f ↦ l.led q w j (sym (rw f refl) ∙ e)
    ];
  }

  -- without an item
  pub Linked-less :
      (i : ℕ) (k old : Bytes)
      → item k ≡ some (old, i)
      → Linked (update chain i none) (at_key k none item)
  Linked-less i k old was = record {
    leads = λ j q e. elim (ℕ_discrete i j) [
      | yes same ↦ absurd (clash (sym (ap (update chain i none) same) ∙ update_self chain i none) e)
      | no ne ↦
          let found = l.leads j q (sym (update_ne chain i j none ne) ∙ e) in
          (
            found.0,
            at_key_ne k none item q
                  (λ same. ne (some-right (sym was ∙ ap item (sym same) ∙ found.1)))
                ∙ found.1,
          )
    ];
    led = λ q w j e. elim (Bool-cases (bytes_eq q k)) [
      | inl t ↦ let gone : none ≡ some (w, j) = sym (rw t refl) ∙ e in absurd (grind (arith, gone))
      | inr f ↦
          let there : item q ≡ some (w, j) = sym (rw f refl) ∙ e in
          let other : i ≢ j = λ same.
            differ f (
              some_injective (sym (l.led q w j there) ∙ ap chain (sym same) ∙ l.led k old i was)) in
          update_ne chain i j none other ∙ l.led q w j there
    ];
  }
    where
      differ : {q : Bytes} → bytes_eq q k ≡ false → q ≡ k → ⊥
      differ {q} f e = false≢true (sym f ∙ (bytes_eq_iff q k).1 e)
