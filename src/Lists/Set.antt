-- ===== src/Lists/Set.antt =====
-- `owned_set_in_list`, in place and promoting, and the reading of an item.
use candystore.Base.{
  ℕ, ◌+◌, ◌^◌, ◌<◌, ◌≡◌, ◌≢◌, refl, ap, ◌∙◌, Bool, true, false, Option, none, some, List, [], ◌∷◌,
  ◌++◌, inl, inr, Option-cases, arith,
}
use candystore.Base.Bytes.{Bytes, length}
use candystore.Base.Maps.{at_key_self, at_key_ne}
use candystore.Base.Outcome.{pure}
use candystore.Hashing.{Hasher}
use candystore.Shard.Mmap.{InternalConfig}
use candystore.Shard.Entry.{set}
use candystore.Store.{SetStatus, set_prev_value, set_created_new}
use candystore.Store.Raw.{View, IsMap}
use candystore.Store.Holds.{Holds-pure, Holds-bind, Holds-told}
use candystore.Queue.{tail}
use candystore.Queue.Contents.{Item}
use candystore.Queue.Push.{PushRoom, new_idx}
use candystore.Lists.{HashRoot, owned_get_from_list, owned_set_in_list}
use candystore.Lists.Cells.{ListCells}
use candystore.Lists.Calls.{ListFits, ItemFits, ListHolds, holds_get_item}
use candystore.Lists.Inv.{ListInv, members, value_of}
use candystore.Lists.Stored.{without_index-stored}
use candystore.Lists.Remove.{without_item, Holds-owned_remove_from_list}
use candystore.Lists.Insert.{with_item, Holds-insert_to_list}

-- what the call tells: a promoted item was removed before
abbrev pub told_set : Bool → Option (Bytes × ℕ) → SetStatus
told_set promote none = set_created_new
told_set false (some (old, i)) = set_prev_value old
told_set true (some (old, i)) = set_created_new

-- the list behind the call
abbrev pub with_set : Bool → Item → Option (Bytes × ℕ) → List Item → List Item
with_set false x o xs = with_item set x o xs
with_set true x o xs = without_item o xs ++ (x ∷ [])

module _ {S : Type 0} {hash : Hasher} {config : InternalConfig} (hr : HashRoot S) {v : View S}
    (law : IsMap hash config hr.root v) {list_key : Bytes} (fits : ListFits config list_key) where
  pub holds_owned_get_from_list :
      (k : Bytes) (c : ListCells)
      → ListInv c
      → ListHolds law fits (owned_get_from_list hash config hr list_key k) c (value_of (c.item k)) c
  unfolding owned_get_from_list
  holds_owned_get_from_list k c inv = elim (Option-cases (c.item k)) [
    | inl e ↦ Holds-bind _ (holds_get_item law fits c k) (rw e (Holds-pure none c))
    | inr ((old, i), e) ↦
        let whole : length old + 8 < 2 ^ 64 = omega (arith, inv.short k old i e) in
        Holds-bind _ (holds_get_item law fits c k)
          (rw (e, without_index-stored old i whole) (Holds-pure (some old) c))
  ]

  module _ {k val : Bytes} (small : ItemFits config k val) where
    -- what the call returns and leaves
    pub record ItemSet (promote : Bool) (c : ListCells) : Type 0 where
      pub left : ListCells
      pub holds :
          ListHolds law fits
            (owned_set_in_list hash config hr list_key k val promote)
            c
            (told_set promote (c.item k))
            left
      pub inv : ListInv left
      pub idx : ℕ
      pub listed : members left ≡ with_set promote (idx, k) (c.item k) (members c)
      pub read : value_of (left.item k) ≡ some val
      pub gets :
          ListHolds law fits (owned_get_from_list hash config hr list_key k) left (some val) left
      pub others : (q : Bytes) → q ≢ k → left.item q ≡ c.item q

    gets_value :
        (c : ListCells)
        → ListInv c
        → value_of (c.item k) ≡ some val
        → ListHolds law fits (owned_get_from_list hash config hr list_key k) c (some val) c
    gets_value c inv e = Holds-told e (holds_owned_get_from_list k c inv)

    sets : (c : ListCells) → ListInv c → PushRoom tail c.desc → ItemSet false c
    unfolding owned_set_in_list
    sets c inv room =
        let n = Holds-insert_to_list hr law fits small set c inv room in
        elim (Option-cases (c.item k)) [
          | inl e ↦ record {
            left = n.left;
            holds = Holds-bind _ n.holds (rw e (Holds-pure set_created_new n.left));
            inv = n.inv;
            idx = new_idx tail c.desc;
            listed = n.listed;
            read = ap value_of (n.item k ∙ at_key_self k _ c.item) ∙ rw e refl;
            gets =
                gets_value n.left n.inv
                  (ap value_of (n.item k ∙ at_key_self k _ c.item) ∙ rw e refl);
            others = λ q ne. n.item q ∙ at_key_ne k _ c.item q ne;
          }
          | inr ((old, i), e) ↦ record {
            left = n.left;
            holds = Holds-bind _ n.holds (rw e (Holds-pure (set_prev_value old) n.left));
            inv = n.inv;
            idx = new_idx tail c.desc;
            listed = n.listed;
            read = ap value_of (n.item k ∙ at_key_self k _ c.item) ∙ rw e refl;
            gets =
                gets_value n.left n.inv
                  (ap value_of (n.item k ∙ at_key_self k _ c.item) ∙ rw e refl);
            others = λ q ne. n.item q ∙ at_key_ne k _ c.item q ne;
          }
        ]

    promotes : (c : ListCells) → ListInv c → PushRoom tail c.desc → ItemSet true c
    unfolding owned_set_in_list
    promotes c inv room =
        let r = Holds-owned_remove_from_list hr law fits k c inv in
        let n = Holds-insert_to_list hr law fits small set r.left r.inv (r.room room) in
        let gone : r.left.item k ≡ none = r.item k ∙ at_key_self k none c.item in
        record {
          left = n.left;
          holds = Holds-bind _ r.holds (Holds-bind _ n.holds (rw gone (told (c.item k) n.left)));
          inv = n.inv;
          idx = new_idx tail r.left.desc;
          listed =
              n.listed ∙ rw gone (ap (λ l. l ++ ((new_idx tail r.left.desc, k) ∷ [])) r.listed);
          read = ap value_of (n.item k ∙ at_key_self k _ r.left.item) ∙ rw gone refl;
          gets =
              gets_value n.left n.inv
                (ap value_of (n.item k ∙ at_key_self k _ r.left.item) ∙ rw gone refl);
          others = λ q ne.
              n.item q ∙ at_key_ne k _ r.left.item q ne ∙ r.item q ∙ at_key_ne k none c.item q ne;
        }
      where
        told :
            (o : Option (Bytes × ℕ)) (c' : ListCells)
            → ListHolds law fits (pure set_created_new) c' (told_set true o) c'
        told none c' = Holds-pure set_created_new c'
        told (some (old, i)) c' = Holds-pure set_created_new c'

    -- Over a root that keeps the contract of a map, from a valid state that has room for the
    -- insertions that the call makes, on a list whose descriptor, chain and items agree, with room
    -- for an index, within the limits: `set_in_list` raises no error, a lookup of the item returns
    -- the new value, and the other items have theirs. A new item stands at the tail; one that was
    -- there stays at its place, or is moved to the tail if it is promoted, the others staying in
    -- their order. The call tells the former value, but says that a promoted item was created. The
    -- descriptor, the chain and the items agree again, and no key but those of the list is changed.
    pub Holds-owned_set_in_list :
        (promote : Bool) (c : ListCells) → ListInv c → PushRoom tail c.desc → ItemSet promote c
    Holds-owned_set_in_list false c inv room = sets c inv room
    Holds-owned_set_in_list true c inv room = promotes c inv room
