-- ===== src/Queue/Only.antt =====
-- `remove_from_queue` at the only index of a queue: both ends of the range move past each other.
use candystore.Store.Holds.{Holds-bind, Holds-eq, Holds-pure}
use candystore.Base.{
  ℕ, suc, ◌+◌, ◌-◌, ◌^◌, ◌<◌, ◌≡◌, refl, sym, ap, subst, ◌∙◌, Option, none, some, update,
  update_self, true, ==_iff, ==_self, ==_of_ne, arith,
}
use candystore.Base.Bytes.{Bytes}
use candystore.Base.Word.{wrapping_add, wrapping_sub}
use candystore.Base.Outcome.{Exec, pure, ◌>>=◌, ◌>>◌}
use candystore.Hashing.{Hasher}
use candystore.Shard.Mmap.{InternalConfig}
use candystore.Store.{Root}
use candystore.Store.Raw.{View, IsMap}
use candystore.Queue.{Queue, tail, store_queue}
use candystore.Queue.Cells.{Cells, put_item, put_desc, Does}
use candystore.Queue.Calls.{
  Fits, FitsItem, Does-from_bytes, Does-get_desc, Does-set_desc, Does-remove_item,
}
use candystore.Queue.Contents.{Item, InRange, InRange-IsWords}
use candystore.Queue.{
  drop_at, shrink_queue, remove_from_queue, push_to_queue, push_idx, push_at, one_item,
}
use candystore.Queue.Calls.{Does-set_item, Does-create_desc}
use candystore.Queue.Keys.{IsWords}
use candystore.Queue.Next.{next_item_over}
use candystore.Queue.Walk.{peek_with_idx, next, next_item, fetch_queue}

-- the range `i..i + 1` once it shrank at both ends
abbrev pub inverted : ℕ → ℕ → Queue
inverted i n = record { head_idx = i + 1; tail_idx = i; num_items = n }

-- such a range once an item was pushed at its tail
abbrev pub closed : ℕ → ℕ → Queue
closed i n = record { head_idx = i + 1; tail_idx = i + 1; num_items = n }

drop_at-only :
    (d : Queue)
    → d.tail_idx ≡ d.head_idx + 1
    → d.tail_idx < 2 ^ 64
    → drop_at d.head_idx d ≡ inverted d.head_idx (wrapping_sub d.num_items 1)
unfolding drop_at
drop_at-only d e word =
    let next : wrapping_add d.head_idx 1 ≡ d.head_idx + 1 = omega (arith, e, word) in
    let prev : wrapping_sub d.tail_idx 1 ≡ d.head_idx = omega (arith, e, word) in
    rw (==_self d.head_idx, next, (==_iff d.tail_idx (d.head_idx + 1)).1 e, prev) refl

module _ {S : Type 0} {hash : Hasher} {config : InternalConfig} {root : Root S} {v : View S}
    (law : IsMap hash config root v) {queue_key : Bytes} (fits : Fits config queue_key) where
  -- a removal, a push at the tail and a look at the head
  abbrev pub remove_push_peek : ℕ → Bytes → Exec S (ℕ × Option Item)
  remove_push_peek idx val = do
    remove_from_queue hash config root queue_key idx
    item_idx ← push_to_queue hash config root queue_key val tail
    found ← peek_with_idx hash config root queue_key true
    pure (item_idx, found)

  pub record Lost (d : Queue) (c : Cells) (val : Bytes) : Type 0 where
    pub left : Cells
    pub does : Does v queue_key (remove_push_peek d.head_idx val) c (d.head_idx, none) left
    pub held : left.item d.head_idx ≡ some val

  stores_inverted :
      (c : Cells) (i n : ℕ) {d : Queue}
      → d ≡ inverted i n
      → Does v queue_key
          (store_queue hash config root queue_key d)
          c
          tt
          (put_desc (some (inverted i n)) c)
  unfolding store_queue
  stores_inverted c i n e =
      rw (e, ==_of_ne (i + 1) i (omega arith))
        (Holds-bind _ (Does-set_desc law fits c (inverted i n)) (Holds-pure tt _))

  removes :
      (d : Queue) (item : ℕ → Option Bytes) (x : Bytes)
      → d.tail_idx ≡ d.head_idx + 1
      → IsWords d
      → item d.head_idx ≡ some x
      → Does v queue_key
          (remove_from_queue hash config root queue_key d.head_idx)
          (record { desc = some d; item = item })
          (some x)
          (record {
            desc = some (inverted d.head_idx (wrapping_sub d.num_items 1));
            item = update item d.head_idx none;
          })
  unfolding remove_from_queue shrink_queue
  removes d item x e words found =
      let c : Cells = record { desc = some d; item = item } in
      let c' : Cells = put_item d.head_idx none c in
      Holds-bind _ (Does-remove_item law fits c d.head_idx words.head_word) (
        rw found (
          Holds-bind _ (Does-get_desc law fits c') (
            Holds-bind _
              (Holds-bind _ (Does-from_bytes v queue_key d c' words) (
                stores_inverted c' d.head_idx (wrapping_sub d.num_items 1)
                  (drop_at-only d e words.tail_word)))
              (Holds-pure (some x) _))))

  pushes :
      (i n : ℕ) (item : ℕ → Option Bytes) (x : Bytes)
      → i + 1 < 2 ^ 64
      → n < 2 ^ 64
      → FitsItem config queue_key x
      → Does v queue_key
          (push_to_queue hash config root queue_key x tail)
          (record { desc = some (inverted i n); item = item })
          i
          (record { desc = some (closed i (wrapping_add n 1)); item = update item i (some x) })
  unfolding push_to_queue push_idx push_at
  pushes i n item x word num small =
      let c : Cells = record { desc = some (inverted i n); item = item } in
      let next : wrapping_add i 1 ≡ i + 1 = omega (arith, word) in
      let words : IsWords (inverted i n) = record {
        head_word = word;
        tail_word = omega arith;
        num_word = num;
      } in
      Holds-bind _ (Does-create_desc law fits c one_item) (
        Holds-bind _
          (Holds-bind _ (Does-from_bytes v queue_key (inverted i n) c words) (
            Holds-bind _ (Does-set_desc law fits c (push_at tail (inverted i n)).1)
              (Holds-pure i _)))
          (Holds-bind _
            (Does-set_item law fits (put_desc (some (push_at tail (inverted i n)).1) c) i x
              (omega arith) small)
            (subst
              (λ t.
                Does v queue_key (pure i)
                  (record {
                    desc =
                        some
                          (record { head_idx = i + 1; tail_idx = t; num_items = wrapping_add n 1 });
                    item = update item i (some x);
                  })
                  i
                  (record {
                    desc = some (closed i (wrapping_add n 1));
                    item = update item i (some x);
                  }))
              (sym next) (Holds-pure i _))))

  peeks :
      (i n : ℕ) (item : ℕ → Option Bytes)
      → i + 1 < 2 ^ 64
      → n < 2 ^ 64
      → Does v queue_key
          (peek_with_idx hash config root queue_key true)
          (record { desc = some (closed i n); item = item })
          none
          (record { desc = some (closed i n); item = item })
  unfolding peek_with_idx next next_item fetch_queue
  peeks i n item word num =
      let c : Cells = record { desc = some (closed i n); item = item } in
      let one_round : (i + 1) - (i + 1) + 1 ≡ suc 0 = omega arith in
      Holds-bind _
        (Holds-bind _
          (Holds-bind _ (Does-get_desc law fits c) (
            Holds-bind _
              (Does-from_bytes v queue_key (closed i n) c
                (record { head_word = word; tail_word = word; num_word = num }))
              (Holds-pure _ c)))
          (Holds-bind _
            (Holds-eq
              (ap (λ k. next_item hash config root queue_key true k (i + 1, i + 1)) one_round
                ∙ next_item_over law fits true 0 (i + 1, i + 1) (omega arith))
              (Holds-pure (none, (i + 1, i + 1)) c))
            (Holds-pure (none, some (i + 1, i + 1)) c)))
        (Holds-pure none c)

  -- Over a root that keeps the contract of a map, from a valid state that has room for the
  -- insertions that the call makes, on a queue whose descriptor and items agree, within the limits,
  -- whose range is one index: once `remove_from_queue` took its item out, pushing an item at the
  -- tail raises no error and returns that index, and then peeking at the head finds nothing,
  -- although the item is in the store.
  pub remove_only :
      (d : Queue) (item : ℕ → Option Bytes) (x val : Bytes)
      → InRange item d
      → d.tail_idx ≡ d.head_idx + 1
      → item d.head_idx ≡ some x
      → FitsItem config queue_key val
      → Lost d (record { desc = some d; item = item }) val
  remove_only d item x val inv e found small =
      let n = wrapping_sub d.num_items 1 in
      record {
        left = record {
          desc = some (closed d.head_idx (wrapping_add n 1));
          item = update (update item d.head_idx none) d.head_idx (some val);
        };
        does = Holds-bind _ (removes d item x e (InRange-IsWords inv) found) (
            Holds-bind _
              (pushes d.head_idx n (update item d.head_idx none) val (omega (arith, e, inv.words))
                (omega arith) small)
              (Holds-bind _
                (peeks d.head_idx (wrapping_add n 1) _ (omega (arith, e, inv.words)) (omega arith))
                (Holds-pure (d.head_idx, none) _)));
        held = update_self (update item d.head_idx none) d.head_idx (some val);
      }
