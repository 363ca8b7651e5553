-- ===== src/Lists/Cells.antt =====
-- A list as its descriptor, its chain and its items, apart from the bytes that stand for them.
use candystore.Base.{
  ℕ, ◌^◌, ◌<◌, ◌≡◌, refl, sym, ap, ◌∙◌, Option, none, some, ◌++◌, update, update_self, update_ne,
  inl, inr, Bool-cases, false,
}
use candystore.Base.Bytes.{Bytes, bytes_eq, bytes_eq_iff}
use candystore.Base.Word.{le_bytes}
use candystore.Base.Maps.{Map, put, put_self, put_ne, at_key, at_key_self}
use candystore.Hashing.{Hasher, PartedHash, parted_hash}
use candystore.Store.Holds.{Part}
use candystore.Queue.Cells.{encoded}
use candystore.Lists.{ListDesc, make_list_key, make_item_key, chain_key}
use candystore.Lists.Keys.{
  chain_key-ne-list_key, item_key-ne-list_key, item_key-ne-chain_key, item_key_injective,
  chain_key_injective,
}
use mathlib.Core.Bool.{false≢true}
use native.Mathlib.Decide.{ℕ_discrete}

-- the chain leads from an index to an item's key; an item has its value and its index
pub record ListCells : Type 0 where
  pub desc : Option ListDesc
  pub chain : ℕ → Option Bytes
  pub item : Bytes → Option (Bytes × ℕ)

abbrev pub put_desc : Option ListDesc → ListCells → ListCells
put_desc d c = record c { desc = d }

abbrev pub put_chain : ℕ → Option Bytes → ListCells → ListCells
put_chain i o c = record c { chain = update c.chain i o }

abbrev pub put_item : Bytes → Option (Bytes × ℕ) → ListCells → ListCells
put_item k o c = record c { item = at_key k o c.item }

-- an item's bytes: its value, and behind it its index
abbrev pub stored : Option (Bytes × ℕ) → Option Bytes
stored none = none
stored (some (val, i)) = some (val ++ le_bytes 8 i)

module _ (hash : Hasher) (list_key : Bytes) where
  abbrev pub ph_of : PartedHash
  ph_of = parted_hash hash (make_list_key list_key)

  -- the hash of an item's key
  abbrev pub item_hash : Bytes → PartedHash
  item_hash k = parted_hash hash (make_item_key ph_of k)

  abbrev pub linked : Option Bytes → Option Bytes
  linked none = none
  linked (some k) = some (le_bytes 8 (item_hash k))

  -- the map holds the list
  pub record ListRep (f : Map) (c : ListCells) : Type 0 where
    pub desc : f (make_list_key list_key) ≡ encoded c.desc
    pub chains : (i : ℕ) → i < 2 ^ 64 → f (chain_key ph_of i) ≡ linked (c.chain i)
    pub items : (k : Bytes) → f (make_item_key ph_of k) ≡ stored (c.item k)

  pub data IsListKey : Bytes → Type 0 where
    is_desc : IsListKey (make_list_key list_key)
    is_chain : (i : ℕ) → IsListKey (chain_key ph_of i)
    is_item : (k : Bytes) → IsListKey (make_item_key ph_of k)

  abbrev pub list_part : Part ListCells
  list_part = record {
    Rep = ListRep;
    Mine = IsListKey;
    congr = λ f g c same r. record {
      desc = same (make_list_key list_key) ∙ r.desc;
      chains = λ i lt. same (chain_key ph_of i) ∙ r.chains i lt;
      items = λ k. same (make_item_key ph_of k) ∙ r.items k;
    };
  }

  module _ {f : Map} {c : ListCells} (r : ListRep f c) where
    pub Rep-put_desc :
        (d : Option ListDesc) → ListRep (put (make_list_key list_key) (encoded d) f) (put_desc d c)
    Rep-put_desc d = record {
      desc = put_self (make_list_key list_key) (encoded d) f;
      chains = λ i lt.
          put_ne (make_list_key list_key) (chain_key ph_of i) (encoded d) f
            (chain_key-ne-list_key ph_of i list_key)
          ∙ r.chains i lt;
      items = λ k.
          put_ne (make_list_key list_key) (make_item_key ph_of k) (encoded d) f
            (item_key-ne-list_key ph_of k list_key)
          ∙ r.items k;
    }

    pub Rep-put_chain :
        (i : ℕ) (o : Option Bytes)
        → i < 2 ^ 64
        → ListRep (put (chain_key ph_of i) (linked o) f) (put_chain i o c)
    Rep-put_chain i o hi = record {
      desc =
          put_ne (chain_key ph_of i) (make_list_key list_key) (linked o) f
            (λ e. chain_key-ne-list_key ph_of i list_key (sym e))
          ∙ r.desc;
      chains = λ j hj. elim (ℕ_discrete i j) [
        | yes e ↦
            ap (λ k. put (chain_key ph_of i) (linked o) f (chain_key ph_of k)) (sym e)
            ∙ put_self (chain_key ph_of i) (linked o) f
            ∙ ap linked (sym (update_self c.chain i o) ∙ ap (update c.chain i o) e)
        | no ne ↦
            put_ne (chain_key ph_of i) (chain_key ph_of j) (linked o) f
              (λ e. ne (sym (chain_key_injective ph_of j i hj hi e)))
            ∙ r.chains j hj
            ∙ ap linked (sym (update_ne c.chain i j o ne))
      ];
      items = λ k.
          put_ne (chain_key ph_of i) (make_item_key ph_of k) (linked o) f
            (item_key-ne-chain_key ph_of k i)
          ∙ r.items k;
    }

    pub Rep-put_item :
        (k : Bytes) (o : Option (Bytes × ℕ))
        → ListRep (put (make_item_key ph_of k) (stored o) f) (put_item k o c)
    Rep-put_item k o = record {
      desc =
          put_ne (make_item_key ph_of k) (make_list_key list_key) (stored o) f
            (λ e. item_key-ne-list_key ph_of k list_key (sym e))
          ∙ r.desc;
      chains = λ i lt.
          put_ne (make_item_key ph_of k) (chain_key ph_of i) (stored o) f
            (λ e. item_key-ne-chain_key ph_of k i (sym e))
          ∙ r.chains i lt;
      items = λ q. elim (Bool-cases (bytes_eq q k)) [
        | inl t ↦
            let e = (bytes_eq_iff q k).0 t in
            ap (λ x. put (make_item_key ph_of k) (stored o) f (make_item_key ph_of x)) e
            ∙ put_self (make_item_key ph_of k) (stored o) f
            ∙ ap stored (sym (at_key_self k o c.item) ∙ ap (at_key k o c.item) (sym e))
        | inr no_key ↦
            put_ne (make_item_key ph_of k) (make_item_key ph_of q) (stored o) f
              (λ e. differ no_key (item_key_injective ph_of q k e))
            ∙ r.items q
            ∙ ap stored (sym (rw no_key refl))
      ];
    }
      where
        differ : {q : Bytes} → bytes_eq q k ≡ false → q ≡ k → ⊥
        differ {q} no_key e = false≢true (sym no_key ∙ (bytes_eq_iff q k).1 e)
