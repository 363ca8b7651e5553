-- ===== src/Lists/Moved.antt =====
-- An item of a list is given another index: the chain and the items agree as before.
use candystore.Base.{
  ℕ, ◌^◌, ◌<◌, ◌≡◌, ◌≢◌, refl, sym, ap, ◌∙◌, subst, Option, none, some, update, update_self,
  update_ne, inl, inr, Bool-cases, arith,
}
use candystore.Base.Bytes.{Bytes, bytes_eq, bytes_eq_iff}
use candystore.Base.Maps.{at_key, at_key_self}
use candystore.Shard.Mmap.{InternalConfig}
use candystore.Queue.Drop.{clash}
use candystore.Lists.Cells.{ListCells, put_chain, put_item}
use candystore.Lists.Calls.{ItemFits}
use candystore.Lists.Inv.{Linked, Short, Linked-new, Linked-less, Short-new, value_of, some-left}
use candystore.Lists.Index.{Leading}
use native.Mathlib.Decide.{ℕ_discrete}

abbrev pub moved : ℕ → ℕ → Bytes → Bytes → ListCells → ListCells
moved idx new_idx k val c =
    put_chain idx none (put_item k (some (val, new_idx)) (put_chain new_idx (some k) c))

-- every item is within the limits
abbrev pub ItemsFit : InternalConfig → (Bytes → Option (Bytes × ℕ)) → Type 0
ItemsFit config item = (k val : Bytes) (i : ℕ) → item k ≡ some (val, i) → ItemFits config k val

pub ItemsFit-new :
    {config : InternalConfig} {item : Bytes → Option (Bytes × ℕ)}
    → ItemsFit config item
    → (k val : Bytes) (i : ℕ) → ItemFits config k val
    → ItemsFit config (at_key k (some (val, i)) item)
ItemsFit-new {config} fit k val i small q w j at = elim (Bool-cases (bytes_eq q k)) [
  | inl t ↦
      let now : some (val, i) ≡ some (w, j) = sym (rw t refl) ∙ at in
      subst (ItemFits config q) (some-left now)
        (subst (λ z. ItemFits config z val) (sym ((bytes_eq_iff q k).0 t)) small)
  | inr other ↦ fit q w j (sym (rw other refl) ∙ at)
]

update_swap :
    {A : Type 0} (f : ℕ → A) (a b : ℕ) (x y : A) (n : ℕ)
    → a ≢ b
    → update (update f a x) b y n ≡ update (update f b y) a x n
update_swap f a b x y n ne = elim (ℕ_discrete b n) [
  | yes e ↦
      ap (update (update f a x) b y) (sym e)
      ∙ update_self (update f a x) b y
      ∙ sym (update_ne (update f b y) a b x ne ∙ update_self f b y)
      ∙ ap (update (update f b y) a x) e
  | no nb ↦ update_ne (update f a x) b n y nb ∙ elim (ℕ_discrete a n) [
    | yes e ↦
        ap (update f a x) (sym e)
        ∙ update_self f a x
        ∙ sym (update_self (update f b y) a x)
        ∙ ap (update (update f b y) a x) e
    | no na ↦ update_ne f a n x na ∙ sym (update_ne (update f b y) a n x na ∙ update_ne f b n y nb)
  ]
]

at_key_twice :
    {A : Type 0} (k : Bytes) (x y : A) (f : Bytes → A) (q : Bytes)
    → at_key k x (at_key k y f) q ≡ at_key k x f q
at_key_twice k x y f q = elim (Bool-cases (bytes_eq q k)) [ inl t ↦ rw t refl | inr e ↦ rw e refl ]

module _ {c : ListCells} (lead : Leading c) {idx new_idx : ℕ} {k val : Bytes}
    (e : c.item k ≡ some (val, idx)) (free : c.chain new_idx ≡ none) where
  pub moved-ne : idx ≢ new_idx
  moved-ne same = clash free (ap c.chain (sym same) ∙ lead.links.led k val idx e)

  pub moved-Leading : new_idx < 2 ^ 64 → Leading (moved idx new_idx k val c)
  moved-Leading word =
      let links =
        Linked-new (Linked-less lead.links idx k val e) new_idx k val (at_key_self k none c.item)
          (update_ne c.chain idx new_idx none moved-ne ∙ free) in
      record {
        links =
            subst (λ f. Linked f (at_key k (some (val, new_idx)) c.item))
              (λ i n. update_swap c.chain idx new_idx none (some k) n moved-ne i)
              (subst (Linked (update (update c.chain idx none) new_idx (some k)))
                (λ i q. at_key_twice k (some (val, new_idx)) none c.item q i) links);
        words = λ j q at. elim (ℕ_discrete idx j) [
          | yes same ↦ absurd (
              clash
                (ap (moved idx new_idx k val c).chain (sym same)
                  ∙ update_self (update c.chain new_idx (some k)) idx none)
                at)
          | no ne ↦ elim (ℕ_discrete new_idx j) [
            | yes same ↦ omega (arith, word, same)
            | no ne' ↦ lead.words j q (
                sym (
                  update_ne (update c.chain new_idx (some k)) idx j none ne
                  ∙ update_ne c.chain new_idx j (some k) ne')
                ∙ at)
          ]
        ];
      }

  pub moved-Short : Short c.item → Short (moved idx new_idx k val c).item
  moved-Short short = Short-new short k val new_idx (short k val idx e)

  pub moved-ItemsFit :
      {config : InternalConfig}
      → ItemsFit config c.item
      → ItemsFit config (moved idx new_idx k val c).item
  moved-ItemsFit fit = ItemsFit-new fit k val new_idx (fit k val idx e)

  pub value_of-moved :
      (q : Bytes) → value_of ((moved idx new_idx k val c).item q) ≡ value_of (c.item q)
  value_of-moved q = elim (Bool-cases (bytes_eq q k)) [
    | inl t ↦ rw t (sym (ap (λ z. value_of (c.item z)) ((bytes_eq_iff q k).0 t) ∙ ap value_of e))
    | inr other ↦ rw other refl
  ]
