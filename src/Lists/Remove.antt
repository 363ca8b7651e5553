-- ===== src/Lists/Remove.antt =====
-- `owned_remove_from_list`: an item is taken out, and the range shrinks at its head or else its
-- tail.
use candystore.Base.{
  ℕ, ◌+◌, ◌^◌, ◌<◌, ◌≤◌, ◌≡◌, refl, sym, ◌∙◌, Option, none, some, List, inl, inr, Option-cases,
  Bool-cases, ==_iff, ==_of_ne, arith,
}
use candystore.Base.Bytes.{Bytes, length}
use candystore.Base.Word.{le_bytes, of_le_bytes-le_bytes, wrapping_add}
use candystore.Base.Maps.{at_key, at_key_same}
use candystore.Hashing.{Hasher}
use candystore.Shard.Mmap.{InternalConfig}
use candystore.Store.Raw.{View, IsMap}
use candystore.Store.Holds.{Holds-pure, Holds-bind}
use candystore.Queue.{is_empty, tail}
use candystore.Queue.Push.{PushRoom}
use candystore.Queue.Cells.{encoded}
use candystore.Queue.Contents.{Item, contents, InRange, DescInv, InRange-IsWords}
use candystore.Queue.Settled.{kept, settles}
use candystore.Queue.Drop.{Dropped, dropped, cleared, inside, at_head, at_tail, between, clash}
use candystore.Lists.{
  ListDesc, HashRoot, shrink_list, store_list, update_list, owned_remove_from_list,
}
use candystore.Lists.Cells.{ListCells, put_desc, put_chain, put_item}
use candystore.Lists.Calls.{
  ListFits, ListHolds, holds_from_bytes, holds_get_desc, holds_get_item, holds_set_desc,
  holds_remove_desc, holds_remove_chain, holds_remove_item,
}
use candystore.Lists.Inv.{ListInv, members, value_of, Linked-less, Short-less}
use candystore.Lists.Stored.{index_bytes-stored, without_index-stored}
use native.Mathlib.Decide.{ℕ_discrete}

shrinks :
    (chain : ℕ → Option Bytes) (idx : ℕ) (d : ListDesc) (k : Bytes)
    → InRange chain d
    → chain idx ≡ some k
    → Dropped chain idx d (shrink_list idx d)
unfolding shrink_list
shrinks chain idx d k v e =
    let word : wrapping_add idx 1 ≡ idx + 1 =
      omega (arith, v.words, (inside chain idx d k v e).1) in
    elim (ℕ_discrete d.head_idx idx) [
      | yes h ↦ rw ((==_iff d.head_idx idx).1 h) (at_head chain idx d k v e h)
      | no ne ↦ elim (ℕ_discrete d.tail_idx (idx + 1)) [
        | yes t ↦
            rw (==_of_ne d.head_idx idx ne, word, (==_iff d.tail_idx (idx + 1)).1 t)
              (at_tail chain idx d k v e ne t)
        | no no_tail ↦
            rw (==_of_ne d.head_idx idx ne, word, ==_of_ne d.tail_idx (idx + 1) no_tail)
              (between chain idx d k v e)
      ]
    ]

-- the tail does not go up, so that there is as much room as before
shrinks_tail :
    (chain : ℕ → Option Bytes) (idx : ℕ) (d : ListDesc) (k : Bytes)
    → InRange chain d
    → chain idx ≡ some k
    → (shrink_list idx d).tail_idx ≤ d.tail_idx
unfolding shrink_list
shrinks_tail chain idx d k v e =
    let word : wrapping_add idx 1 ≡ idx + 1 =
      omega (arith, v.words, (inside chain idx d k v e).1) in
    elim (ℕ_discrete d.head_idx idx) [
      | yes h ↦ rw ((==_iff d.head_idx idx).1 h) (omega arith)
      | no ne ↦ elim (ℕ_discrete d.tail_idx (idx + 1)) [
        | yes t ↦
            rw (==_of_ne d.head_idx idx ne, word, (==_iff d.tail_idx (idx + 1)).1 t)
              (omega (arith, v.words, t))
        | no no_tail ↦
            rw (==_of_ne d.head_idx idx ne, word, ==_of_ne d.tail_idx (idx + 1) no_tail)
              (omega arith)
      ]
    ]

kept_room :
    (d d' : ListDesc) → d'.tail_idx ≤ d.tail_idx → PushRoom tail (some d) → PushRoom tail (kept d')
kept_room d d' le room = elim (Bool-cases (is_empty d')) [
  | inl e ↦ rw e tt
  | inr e ↦ rw e (omega (arith, room))
]

-- the list without the item that an entry stood for
abbrev pub without_item : Option (Bytes × ℕ) → List Item → List Item
without_item none xs = xs
without_item (some (val, i)) xs = dropped i xs

module _ {S : Type 0} {hash : Hasher} {config : InternalConfig} (hr : HashRoot S) {v : View S}
    (law : IsMap hash config hr.root v) {list_key : Bytes} (fits : ListFits config list_key) where
  pub stores_list :
      (c : ListCells) (d : ListDesc)
      → ListHolds law fits (store_list hash config hr list_key d) c tt (put_desc (kept d) c)
  unfolding store_list
  stores_list c d = elim (Bool-cases (is_empty d)) [
    | inl empty ↦ rw empty (Holds-bind _ (holds_remove_desc law fits c) (Holds-pure tt _))
    | inr more ↦ rw more (Holds-bind _ (holds_set_desc law fits c d) (Holds-pure tt _))
  ]

  -- what removing an item returns and leaves
  pub record ItemRemoved (k : Bytes) (c : ListCells) : Type 0 where
    pub left : ListCells
    pub holds :
        ListHolds law fits
          (owned_remove_from_list hash config hr list_key k)
          c
          (value_of (c.item k))
          left
    pub inv : ListInv left
    pub listed : members left ≡ without_item (c.item k) (members c)
    pub item : (q : Bytes) → left.item q ≡ at_key k none c.item q
    pub room : PushRoom tail c.desc → PushRoom tail left.desc

  remove_absent : (k : Bytes) (c : ListCells) → ListInv c → c.item k ≡ none → ItemRemoved k c
  unfolding owned_remove_from_list
  remove_absent k c inv e = record {
    left = c;
    holds = Holds-bind _ (holds_get_item law fits c k) (rw e (Holds-pure none c));
    inv = inv;
    listed = rw e refl;
    item = λ q. sym (at_key_same k none c.item e q);
    room = λ h. h;
  }

  -- the descriptor without an index
  record Shortened (c : ListCells) (o : Option ListDesc) (i : ℕ) : Type 0 where
    desc : Option ListDesc
    word : i < 2 ^ 64
    room : PushRoom tail o → PushRoom tail desc
    holds :
        ListHolds law fits
          (update_list hash config hr list_key i (encoded o))
          c
          tt
          (put_desc desc c)
    inv : DescInv (cleared c.chain i) desc
    listed :
        contents (record { desc = desc; item = cleared c.chain i })
        ≡ dropped i (contents (record { desc = o; item = c.chain }))

  shortens :
      (c : ListCells) (o : Option ListDesc) (k : Bytes) (i : ℕ)
      → DescInv c.chain o
      → c.chain i ≡ some k
      → Shortened c o i
  unfolding update_list contents
  shortens c none k i free at = absurd (clash (free i) at)
  shortens c (some d) k i v at =
      let p = shrinks c.chain i d k v at in
      let st = settles (cleared c.chain i) (shrink_list i d) p.inv in
      record {
        desc = kept (shrink_list i d);
        word = omega (arith, v.words, (inside c.chain i d k v at).1);
        room = kept_room d (shrink_list i d) (shrinks_tail c.chain i d k v at);
        holds =
            Holds-bind _ (holds_from_bytes law fits d c (InRange-IsWords v))
              (stores_list c (shrink_list i d));
        inv = st.inv;
        listed = st.listed ∙ p.listed;
      }

  remove_present :
      (k : Bytes) (c : ListCells) (old : Bytes) (i : ℕ)
      → ListInv c
      → c.item k ≡ some (old, i)
      → ItemRemoved k c
  unfolding owned_remove_from_list
  remove_present k c old i inv e =
      let at = inv.links.led k old i e in
      let sh = shortens c c.desc k i inv.range at in
      let whole : length old + 8 < 2 ^ 64 = omega (arith, inv.short k old i e) in
      let c' = put_desc sh.desc c in
      record {
        left = put_item k none (put_chain i none c');
        holds = Holds-bind _ (holds_get_item law fits c k) (
            rw (e, index_bytes-stored {S = S} old i)
              (Holds-bind _ (Holds-pure (le_bytes 8 i) c) (
                rw (of_le_bytes-le_bytes i sh.word, without_index-stored old i whole)
                  (Holds-bind _ (holds_get_desc law fits c) (
                    Holds-bind _ sh.holds (
                      Holds-bind _ (holds_remove_chain law fits c' i sh.word) (
                        Holds-bind _ (holds_remove_item law fits (put_chain i none c') k)
                          (Holds-pure (some old) _))))))));
        inv = record {
          range = sh.inv;
          links = Linked-less inv.links i k old e;
          short = Short-less inv.short k;
        };
        listed = sh.listed ∙ rw e refl;
        item = λ q. refl;
        room = sh.room;
      }

  -- Over a root that keeps the contract of a map, from a valid state that has room for the
  -- insertions that the call makes, on a list whose descriptor, chain and items agree, within the
  -- limits: `remove_from_list` raises no error, returns the value of the item, or nothing if the
  -- list has no such item, and takes the item out of the list, the others staying in their order
  -- with their values; the descriptor, the chain and the items agree again, and no key but those of
  -- the list is changed.
  pub Holds-owned_remove_from_list : (k : Bytes) (c : ListCells) → ListInv c → ItemRemoved k c
  Holds-owned_remove_from_list k c inv = elim (Option-cases (c.item k)) [
    | inl e ↦ remove_absent k c inv e
    | inr ((old, i), e) ↦ remove_present k c old i inv e
  ]
