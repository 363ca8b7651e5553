-- ===== src/Lists/Moves.antt =====
-- The loop of `compact_list_if_needed`: the items are moved behind the tail, one after the other.
use candystore.Base.{
  ℕ, zero, suc, ◌+◌, ◌^◌, ◌<◌, ◌≤◌, ◌≡◌, refl, sym, ap, ◌∙◌, none, some, List, [], ◌∷◌, ◌++◌,
  update, update_self, ◌≢◌, update_ne, inl, inr, Option-cases, arith,
}
use candystore.Base.Bytes.{Bytes, length}
use candystore.Base.Word.{wrapping_add}
use candystore.Hashing.{Hasher}
use candystore.Shard.Mmap.{InternalConfig}
use candystore.Store.Raw.{View}
use candystore.Store.Holds.{Holds-pure, Holds-bind, Holds-told}
use candystore.Queue.Contents.{Item, one, items_from, items_from_congr}
use candystore.Lists.{HashRoot}
use candystore.Lists.Walk.{move_found, move_in_range}
use candystore.Lists.Cells.{ListCells, put_chain, put_item, ph_of, item_hash}
use candystore.Lists.Calls.{
  ListFits, ListHolds, holds_set_chain, holds_set_item, holds_remove_chain,
}
use candystore.Lists.Inv.{Short, value_of}
use candystore.Lists.Stored.{without_index-stored}
use candystore.Lists.Index.{IsHashMap, Leading, full, finds_at}
use candystore.Lists.Moved.{
  moved, ItemsFit, moved-Leading, moved-Short, moved-ItemsFit, value_of-moved,
}
use native.Mathlib.Decide.{ℕ_discrete}

-- the keys of items, in their order
abbrev pub keys_of : List Item → List Bytes
keys_of [] = []
keys_of ((i, k) ∷ xs) = k ∷ keys_of xs

module _ {S : Type 0} {hash : Hasher} {config : InternalConfig} {hr : HashRoot S} {v : View S}
    (laws : IsHashMap hash config hr v) {list_key : Bytes} (fits : ListFits config list_key) where
  -- what the loop does to a range, and to the indices from `new_idx` on
  pub record RangeMoved (n lo new_idx : ℕ) (c : ListCells) : Type 0 where
    pub left : ListCells
    pub count : ℕ
    pub holds :
        ListHolds laws.law fits
          (move_in_range hash config hr (ph_of hash list_key) n lo new_idx)
          c
          (new_idx + count)
          left
    pub lead : Leading left
    pub short : Short left.item
    pub few : count ≤ n
    pub desc : left.desc ≡ c.desc
    pub below : (i : ℕ) → i < lo → left.chain i ≡ c.chain i
    pub between : (i : ℕ) → lo + n ≤ i → i < new_idx → left.chain i ≡ c.chain i
    pub gone : (i : ℕ) → lo ≤ i → i < lo + n → left.chain i ≡ none
    pub above : (i : ℕ) → new_idx + count ≤ i → left.chain i ≡ none
    pub keys : keys_of (items_from left.chain count new_idx) ≡ keys_of (items_from c.chain n lo)
    pub whole : length (items_from left.chain count new_idx) ≡ count
    pub values : (q : Bytes) → value_of (left.item q) ≡ value_of (c.item q)

  -- one round that finds an item
  move_one :
      (c : ListCells) (idx new_idx : ℕ) (k val : Bytes)
      → Leading c
      → Short c.item
      → ItemsFit config c.item
      → c.item k ≡ some (val, idx)
      → idx < 2 ^ 64
      → new_idx + 1 < 2 ^ 64
      → ListHolds laws.law fits
          (move_found hash config hr
            (ph_of hash list_key)
            idx
            new_idx
            (some (item_hash hash list_key k, full hash list_key k val idx)))
          c
          (new_idx + 1)
          (moved idx new_idx k val c)
  move_one c idx new_idx k val lead short fit e word room =
      let size : length val + 8 < 2 ^ 64 = omega (arith, short k val idx e) in
      let next : wrapping_add new_idx 1 ≡ new_idx + 1 = omega (arith, room) in
      let c1 = put_chain new_idx (some k) c in
      rw (without_index-stored val idx size, next)
        (Holds-bind _ (holds_set_chain laws.law fits c new_idx k (omega (arith, room))) (
          Holds-bind _ (holds_set_item laws.law fits c1 k val new_idx (fit k val idx e)) (
            Holds-bind _
              (holds_remove_chain laws.law fits (put_item k (some (val, new_idx)) c1) idx word)
              (Holds-pure (new_idx + 1) _))))

  -- a round that finds an item, and the rounds behind it
  moves_found :
      (n lo new_idx : ℕ) (c : ListCells) (k val : Bytes)
      → Leading c
      → Short c.item
      → ItemsFit config c.item
      → c.chain new_idx ≡ none
      → lo + suc n ≤ new_idx
      → new_idx + suc n < 2 ^ 64
      → c.chain lo ≡ some k
      → c.item k ≡ some (val, lo)
      → RangeMoved n (lo + 1) (new_idx + 1) (moved lo new_idx k val c)
      → RangeMoved (suc n) lo new_idx c
  unfolding move_in_range items_from
  moves_found n lo new_idx c k val lead short fit empty ordered room e at p =
      let c1 = moved lo new_idx k val c in
      let first : p.left.chain new_idx ≡ some k =
        p.between new_idx (omega arith) (omega arith)
        ∙ update_ne (update c.chain new_idx (some k)) lo new_idx none (omega arith)
        ∙ update_self c.chain new_idx (some k) in
      let emptied : c1.chain lo ≡ none = update_self (update c.chain new_idx (some k)) lo none in
      record {
        left = p.left;
        count = suc p.count;
        holds = Holds-told (omega arith) (
            Holds-bind _
              (Holds-told {y = some (item_hash hash list_key k, full hash list_key k val lo)}
                (rw (e, at) refl) (finds_at laws fits c lo (omega arith) lead))
              (Holds-bind _
                (move_one c lo new_idx k val lead short fit at (omega arith) (omega arith))
                p.holds));
        lead = p.lead;
        short = p.short;
        few = omega (arith, p.few);
        desc = p.desc;
        below = λ i l. p.below i (omega arith) ∙ others i (omega arith) (omega arith);
        between =
            λ i a b. p.between i (omega arith) (omega arith) ∙ others i (omega arith) (omega arith);
        gone = λ i a b. elim (ℕ_discrete lo i) [
          | yes same ↦ p.below i (omega (arith, same)) ∙ ap c1.chain (sym same) ∙ emptied
          | no ne ↦ p.gone i (omega arith) (omega arith)
        ];
        above = λ i a. p.above i (omega arith);
        keys =
            rw (first, e)
              (ap (λ l. k ∷ l)
                (p.keys
                  ∙ ap keys_of (
                      items_from_congr c1.chain c.chain n (lo + 1)
                        (λ i a b. others i (omega arith) (omega arith)))));
        whole = rw first (ap suc p.whole);
        values = λ q. p.values q ∙ value_of-moved lead at empty q;
      }
    where
      others : (i : ℕ) → lo ≢ i → new_idx ≢ i → (moved lo new_idx k val c).chain i ≡ c.chain i
      others i ne ne' =
          update_ne (update c.chain new_idx (some k)) lo i none ne
          ∙ update_ne c.chain new_idx i (some k) ne'

  pub moves :
      (n lo new_idx : ℕ) (c : ListCells)
      → Leading c
      → Short c.item
      → ItemsFit config c.item
      → lo + n ≤ new_idx
      → new_idx + n < 2 ^ 64
      → ((i : ℕ) → new_idx ≤ i → c.chain i ≡ none)
      → RangeMoved n lo new_idx c
  unfolding move_in_range items_from
  moves zero lo new_idx c lead short fit ordered room free = record {
    left = c;
    count = 0;
    holds = Holds-told (omega arith) (Holds-pure new_idx c);
    lead = lead;
    short = short;
    few = omega arith;
    desc = refl;
    below = λ i l. refl;
    between = λ i a b. refl;
    gone = λ i a b. absurd (omega arith);
    above = λ i a. free i (omega arith);
    keys = refl;
    whole = refl;
    values = λ q. refl;
  }
  moves (suc n) lo new_idx c lead short fit ordered room free = elim (Option-cases (c.chain lo)) [
    | inl e ↦
        let p = moves n (lo + 1) new_idx c lead short fit (omega arith) (omega arith) free in
        record {
          left = p.left;
          count = p.count;
          holds =
              Holds-bind _
                (Holds-told {y = none} (rw e refl) (finds_at laws fits c lo (omega arith) lead))
                (Holds-bind _ (Holds-pure new_idx c) p.holds);
          lead = p.lead;
          short = p.short;
          few = omega (arith, p.few);
          desc = p.desc;
          below = λ i l. p.below i (omega arith);
          between = λ i a b. p.between i (omega arith) b;
          gone = λ i a b. elim (ℕ_discrete lo i) [
            | yes same ↦ p.below i (omega (arith, same)) ∙ ap c.chain (sym same) ∙ e
            | no ne ↦ p.gone i (omega arith) (omega arith)
          ];
          above = p.above;
          keys = p.keys ∙ ap (λ o. keys_of (one lo o ++ items_from c.chain n (lo + 1))) (sym e);
          whole = p.whole;
          values = p.values;
        }
    | inr (k, e) ↦
        let there = lead.links.leads lo k e in
        let empty = free new_idx (omega arith) in
        moves_found n lo new_idx c k there.0 lead short fit empty ordered room e there.1 (
          moves n (lo + 1) (new_idx + 1) (moved lo new_idx k there.0 c)
            (moved-Leading lead there.1 empty (omega arith)) (moved-Short lead there.1 empty short)
            (moved-ItemsFit lead there.1 empty fit) (omega arith) (omega arith)
            (λ i a. further lo new_idx c k there.0 i free (omega arith) a))
  ]
    where
      further :
          (lo new_idx : ℕ) (c : ListCells) (k val : Bytes) (i : ℕ)
          → ((j : ℕ) → new_idx ≤ j → c.chain j ≡ none)
          → lo < new_idx
          → new_idx + 1 ≤ i
          → (moved lo new_idx k val c).chain i ≡ none
      further lo new_idx c k val i free lt a =
          update_ne (update c.chain new_idx (some k)) lo i none (omega arith)
          ∙ update_ne c.chain new_idx i (some k) (omega arith)
          ∙ free i (omega arith)
