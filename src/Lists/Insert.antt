-- ===== src/Lists/Insert.antt =====
-- `_insert_to_list`: an item that exists gets another value, a new one stands at the tail.
pub mod Told
use candystore.Base.{
  ℕ, ◌+◌, ◌^◌, ◌<◌, ◌≡◌, refl, sym, Option, none, some, List, [], ◌∷◌, ◌++◌, update, inl, inr,
  Option-cases, Bool-cases, if◌then◌else◌, arith,
}
use candystore.Base.Bytes.{Bytes, length, bytes_eq}
use candystore.Base.Word.{le_bytes}
use candystore.Base.Maps.{at_key, at_key_same}
use candystore.Hashing.{Hasher}
use candystore.Shard.Mmap.{InternalConfig}
use candystore.Shard.Entry.{InsertMode, set, replace, get_or_create}
use candystore.Store.Raw.{View, IsMap, create_result}
use candystore.Store.Holds.{Holds-pure, Holds-bind}
use candystore.Queue.{bytes_of_queue, tail, push_at, one_item, first_queue_idx}
use candystore.Queue.Calls.{or_new}
use candystore.Queue.Cells.{encoded}
use candystore.Queue.Contents.{Item, contents, InRange, DescInv, InRange-IsWords}
use candystore.Queue.Push.{PushRoom, new_idx, with_new, Placed-at, placed_first}
use candystore.Lists.{
  ListDesc, HashRoot, InsertToListStatus, created, item_does_not_exist, item_wrong_value,
  item_existing_value, item_replaced, append_idx, create_item, insert_to_list, overwrite_item,
  make_item_key,
}
use candystore.Lists.Cells.{ListCells, put_desc, put_chain, put_item, ph_of}
use candystore.Lists.Calls.{
  ListFits, ItemFits, ListHolds, holds_from_bytes, holds_create_desc, holds_get_item,
  holds_set_desc, holds_set_chain, holds_set_item, holds_replace_item,
}
use candystore.Lists.Inv.{ListInv, members, Linked-new, Linked-same, Short-new}
use candystore.Lists.Stored.{index_bytes-stored, without_index-stored}
pub use Told.{inserted_status, item_after, with_item}
use candystore.Lists.Insert.Told.{PlacedLast, places}

module _ {S : Type 0} {hash : Hasher} {config : InternalConfig} (hr : HashRoot S) {v : View S}
    (law : IsMap hash config hr.root v) {list_key : Bytes} (fits : ListFits config list_key) where
  appends :
      (c : ListCells) (o : Option ListDesc)
      → DescInv c.chain o
      → ListHolds law fits
          (append_idx hash config hr list_key (create_result (bytes_of_queue one_item) (encoded o)))
          (put_desc (some (or_new one_item o)) c)
          (new_idx tail o)
          (put_desc (some (with_new tail o)) c)
  unfolding append_idx push_at
  appends c none free = Holds-pure _ _
  appends c (some d) v = Holds-bind _ (holds_from_bytes law fits d _ (InRange-IsWords v)) (
      Holds-bind _ (holds_set_desc law fits (put_desc (some d) c) (push_at tail d).1)
        (Holds-pure d.tail_idx _))

  module _ {k val : Bytes} (small : ItemFits config k val) where
    -- what an insertion returns and leaves
    pub record ItemInserted (mode : InsertMode) (c : ListCells) : Type 0 where
      pub left : ListCells
      pub holds :
          ListHolds law fits
            (insert_to_list hash config hr list_key k val mode)
            c
            (inserted_status mode val (c.item k))
            left
      pub inv : ListInv left
      pub listed : members left ≡ with_item mode (new_idx tail c.desc, k) (c.item k) (members c)
      pub item :
          (q : Bytes)
          → left.item q ≡ at_key k (item_after mode val (new_idx tail c.desc) (c.item k)) c.item q

    -- an item that was not there
    record ItemCreated (c : ListCells) : Type 0 where
      left : ListCells
      holds : ListHolds law fits (create_item hash config hr list_key k val) c (created val) left
      inv : ListInv left
      listed : members left ≡ members c ++ ((new_idx tail c.desc, k) ∷ [])
      item : (q : Bytes) → left.item q ≡ at_key k (some (val, new_idx tail c.desc)) c.item q

    creates : (c : ListCells) → ListInv c → PushRoom tail c.desc → c.item k ≡ none → ItemCreated c
    unfolding create_item
    creates c inv room fresh =
        let p = places c.chain c.desc k inv.range room in
        let idx = new_idx tail c.desc in
        let c1 = put_desc (some (with_new tail c.desc)) c in
        record {
          left = put_item k (some (val, idx)) (put_chain idx (some k) c1);
          holds = Holds-bind _ (holds_create_desc law fits c one_item) (
              Holds-bind _ (appends c c.desc inv.range) (
                Holds-bind _ (holds_set_chain law fits c1 idx k p.small) (
                  Holds-bind _ (holds_set_item law fits (put_chain idx (some k) c1) k val idx small)
                    (Holds-pure (created val) _))));
          inv = record {
            range = p.inv;
            links = Linked-new inv.links idx k val fresh p.free;
            short = Short-new inv.short k val idx (omega (arith, small.key, small.size));
          };
          listed = p.listed;
          item = λ q. refl;
        }

    inserts_new :
        (mode : InsertMode) (c : ListCells)
        → ListInv c
        → PushRoom tail c.desc
        → c.item k ≡ none
        → ItemInserted mode c
    unfolding insert_to_list
    inserts_new set c inv room e =
        let n = creates c inv room e in
        record {
          left = n.left;
          holds = Holds-bind _ (holds_get_item law fits c k) (rw e n.holds);
          inv = n.inv;
          listed = rw e n.listed;
          item = λ q. rw e (n.item q);
        }
    inserts_new get_or_create c inv room e =
        let n = creates c inv room e in
        record {
          left = n.left;
          holds = Holds-bind _ (holds_get_item law fits c k) (rw e n.holds);
          inv = n.inv;
          listed = rw e n.listed;
          item = λ q. rw e (n.item q);
        }
    inserts_new (replace expected) c inv room e = record {
      left = c;
      holds = Holds-bind _ (holds_get_item law fits c k) (rw e (Holds-pure item_does_not_exist c));
      inv = inv;
      listed = rw e refl;
      item = λ q. rw e (sym (at_key_same k none c.item e q));
    }

    -- an item that was there keeps its index
    overwrites :
        (c : ListCells) (old : Bytes) (i : ℕ)
        → ListInv c
        → c.item k ≡ some (old, i)
        → ListHolds law fits
            (overwrite_item hash config hr
              (make_item_key (ph_of hash list_key) k)
              val
              (old ++ le_bytes 8 i))
            c
            (item_replaced old)
            (put_item k (some (val, i)) c)
    unfolding overwrite_item
    overwrites c old i inv e =
        let whole : length old + 8 < 2 ^ 64 = omega (arith, inv.short k old i e) in
        rw (index_bytes-stored {S = S} old i, without_index-stored old i whole)
          (Holds-bind _ (Holds-pure (le_bytes 8 i) c) (
            Holds-bind _ (holds_replace_item law fits c k val old i i e small)
              (Holds-pure (item_replaced old) _)))

    overwritten-ListInv :
        (c : ListCells) (old : Bytes) (i : ℕ)
        → ListInv c
        → c.item k ≡ some (old, i)
        → ListInv (put_item k (some (val, i)) c)
    overwritten-ListInv c old i inv e = record {
      range = inv.range;
      links = Linked-same inv.links i k old val e;
      short = Short-new inv.short k val i (omega (arith, small.key, small.size));
    }

    replaces :
        (mode : InsertMode) (c : ListCells) (old : Bytes) (i : ℕ)
        → ListInv c
        → c.item k ≡ some (old, i)
        → item_after mode val (new_idx tail c.desc) (some (old, i)) ≡ some (val, i)
        → ListHolds law fits
            (insert_to_list hash config hr list_key k val mode)
            c
            (inserted_status mode val (some (old, i)))
            (put_item k (some (val, i)) c)
        → ItemInserted mode c
    replaces mode c old i inv e now done = record {
      left = put_item k (some (val, i)) c;
      holds = rw e done;
      inv = overwritten-ListInv c old i inv e;
      listed = rw e refl;
      item = λ q. rw (e, now) refl;
    }

    keeps :
        (mode : InsertMode) (c : ListCells) (old : Bytes) (i : ℕ)
        → ListInv c
        → c.item k ≡ some (old, i)
        → item_after mode val (new_idx tail c.desc) (some (old, i)) ≡ some (old, i)
        → ListHolds law fits
            (insert_to_list hash config hr list_key k val mode)
            c
            (inserted_status mode val (some (old, i)))
            c
        → ItemInserted mode c
    keeps mode c old i inv e now done = record {
      left = c;
      holds = rw e done;
      inv = inv;
      listed = rw e refl;
      item = λ q. rw (e, now) (sym (at_key_same k (some (old, i)) c.item e q));
    }

    inserts_old :
        (mode : InsertMode) (c : ListCells) (old : Bytes) (i : ℕ)
        → ListInv c
        → c.item k ≡ some (old, i)
        → ItemInserted mode c
    unfolding insert_to_list
    inserts_old set c old i inv e =
        replaces set c old i inv e refl
          (Holds-bind _ (holds_get_item law fits c k) (rw e (overwrites c old i inv e)))
    inserts_old (replace none) c old i inv e =
        replaces (replace none) c old i inv e refl
          (Holds-bind _ (holds_get_item law fits c k) (rw e (overwrites c old i inv e)))
    inserts_old get_or_create c old i inv e =
        let whole : length old + 8 < 2 ^ 64 = omega (arith, inv.short k old i e) in
        keeps get_or_create c old i inv e refl (
          Holds-bind _ (holds_get_item law fits c k)
            (rw (e, without_index-stored old i whole) (Holds-pure (item_existing_value old) c)))
    inserts_old (replace (some expected)) c old i inv e =
        let whole : length old + 8 < 2 ^ 64 = omega (arith, inv.short k old i e) in
        elim (Bool-cases (bytes_eq expected (le_bytes 8 i))) [
          | inl same ↦ replaces (replace (some expected)) c old i inv e (rw same refl) (
              Holds-bind _ (holds_get_item law fits c k) (
                rw (e, index_bytes-stored {S = S} old i)
                  (Holds-bind _ (Holds-pure (le_bytes 8 i) c)
                    (rw same (overwrites c old i inv e)))))
          | inr other ↦ keeps (replace (some expected)) c old i inv e (rw other refl) (
              Holds-bind _ (holds_get_item law fits c k) (
                rw (e, index_bytes-stored {S = S} old i)
                  (Holds-bind _ (Holds-pure (le_bytes 8 i) c) (
                    rw (other, without_index-stored old i whole)
                      (Holds-pure (item_wrong_value old) c)))))
        ]

    -- Over a root that keeps the contract of a map, from a valid state that has room for the
    -- insertions that the call makes, on a list whose descriptor, chain and items agree, with room
    -- for an index, within the limits, in each mode: the insertion raises no error and tells
    -- whether the item was there and with which value. A new item stands at the tail with the next
    -- index, unless the mode is to replace; an item that was there keeps its index, and its value
    -- is replaced, but for get_or_create, and for an expected value that differs from the bytes of
    -- the index. The other items stay as they were, the descriptor, the chain and the items agree
    -- again, and no key but those of the list is changed.
    pub Holds-insert_to_list :
        (mode : InsertMode) (c : ListCells) → ListInv c → PushRoom tail c.desc → ItemInserted mode c
    Holds-insert_to_list mode c inv room = elim (Option-cases (c.item k)) [
      | inl e ↦ inserts_new mode c inv room e
      | inr ((old, i), e) ↦ inserts_old mode c old i inv e
    ]
