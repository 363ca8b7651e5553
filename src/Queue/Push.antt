-- ===== src/Queue/Push.antt =====
-- `_push_to_queue`: the item stands at the end of the queue that was asked for.
use candystore.Store.Holds.{Holds-bind, Holds-pure}
use candystore.Base.{
  ℕ, suc, ◌+◌, ◌-◌, ◌^◌, ◌<◌, ◌≡◌, refl, sym, ap, ◌∙◌, Option, none, some, List, [], ◌∷◌, ◌++◌,
  update, update_self, update_ne, inl, inr, arith,
}
use candystore.Base.Bytes.{Bytes, length, length-append}
use candystore.Base.Word.{wrapping_add, wrapping_sub}
use candystore.Hashing.{Hasher}
use candystore.Shard.Mmap.{InternalConfig}
use candystore.Store.{Root}
use candystore.Store.Raw.{View, IsMap}
use candystore.Queue.{
  Queue, QueuePos, head, tail, push_at, push_idx, push_to_queue, one_item, first_queue_idx,
}
use candystore.Queue.Cells.{Cells, put_item, put_desc, Does}
use candystore.Queue.Calls.{
  Fits, FitsItem, Does-from_bytes, Does-set_desc, Does-set_item, Does-create_desc,
}
use candystore.Queue.Contents.{
  Item, items_from, items_from_snoc, items_from-update, length-items_from, contents, InRange,
  QueueInv, DescInv, InRange-IsWords,
}

abbrev pub placed : QueuePos → Item → List Item → List Item
placed head x xs = x ∷ xs
placed tail x xs = xs ++ (x ∷ [])

-- the index does not leave the machine word
abbrev pub PushRoom : QueuePos → Option Queue → Type 0
PushRoom pos none = Unit
PushRoom head (some d) = 0 < d.head_idx
PushRoom tail (some d) = d.tail_idx + 1 < 2 ^ 64

-- the index of a new item
abbrev pub new_idx : QueuePos → Option Queue → ℕ
new_idx pos none = first_queue_idx
new_idx pos (some d) = (push_at pos d).0

-- the descriptor behind a push
abbrev pub with_new : QueuePos → Option Queue → Queue
with_new pos none = one_item
with_new pos (some d) = (push_at pos d).1

module _ (item : ℕ → Option Bytes) (val : Bytes) where
  items_from_cons :
      (i n : ℕ)
      → items_from (update item i (some val)) (suc n) i ≡ (i, val) ∷ items_from item n (i + 1)
  unfolding items_from
  items_from_cons i n =
      rw
        (
          update_self item i (some val),
          items_from-update item i (some val) n (i + 1) (inl (omega arith)),
        )
        refl

  items_from_end :
      (lo n i : ℕ)
      → lo + n ≡ i
      → items_from (update item i (some val)) (suc n) lo ≡ items_from item n lo ++ ((i, val) ∷ [])
  items_from_end lo n i e =
      rw
        (
          items_from_snoc (update item i (some val)) n lo,
          items_from-update item i (some val) n lo (inr (omega (arith, e))),
          e,
          update_self item i (some val),
        )
        refl

  -- the range and the items after a push
  pub record Placed (pos : QueuePos) (d : Queue) (idx : ℕ) (d' : Queue) : Type 0 where
    pub inv : InRange (update item idx (some val)) d'
    pub listed :
        items_from (update item idx (some val)) (d'.tail_idx - d'.head_idx) d'.head_idx
        ≡ placed pos (idx, val) (items_from item (d.tail_idx - d.head_idx) d.head_idx)
    pub small : idx < 2 ^ 64

  pub Placed-at :
      (pos : QueuePos) (d : Queue)
      → InRange item d
      → PushRoom pos (some d)
      → Placed pos d (push_at pos d).0 (push_at pos d).1
  unfolding push_at
  Placed-at head d v room =
      let before : wrapping_sub d.head_idx 1 + 1 ≡ d.head_idx =
        omega (arith, room, v.ordered, v.words) in
      let more : d.tail_idx - wrapping_sub d.head_idx 1 ≡ suc (d.tail_idx - d.head_idx) =
        omega (arith, before, v.ordered) in
      let listed : items_from (update item (wrapping_sub d.head_idx 1) (some val))
            (d.tail_idx - wrapping_sub d.head_idx 1) (wrapping_sub d.head_idx 1)
          ≡ (wrapping_sub d.head_idx 1, val)
            ∷ items_from item (d.tail_idx - d.head_idx) d.head_idx =
        ap
          (λ n.
            items_from (update item (wrapping_sub d.head_idx 1) (some val)) n
              (wrapping_sub d.head_idx 1))
          more
        ∙ items_from_cons (wrapping_sub d.head_idx 1) (d.tail_idx - d.head_idx)
        ∙ ap (λ i. (wrapping_sub d.head_idx 1, val) ∷ items_from item (d.tail_idx - d.head_idx) i)
            before in
      record {
        inv = record {
          ordered = omega (arith, before, v.ordered);
          words = v.words;
          outside = λ i out.
              update_ne item (wrapping_sub d.head_idx 1) i (some val)
                (omega (arith, out, before, v.ordered))
              ∙ v.outside i (omega (arith, out, before));
          counted = omega (
            arith,
            ap length listed,
            v.counted,
            v.ordered,
            v.words,
            length-items_from item (d.tail_idx - d.head_idx) d.head_idx,
          );
        };
        listed = listed;
        small = omega arith;
      }
  Placed-at tail d v room =
      let more : wrapping_add d.tail_idx 1 - d.head_idx ≡ suc (d.tail_idx - d.head_idx) =
        omega (arith, room, v.ordered) in
      let listed : items_from (update item d.tail_idx (some val))
            (wrapping_add d.tail_idx 1 - d.head_idx) d.head_idx
          ≡ items_from item (d.tail_idx - d.head_idx) d.head_idx ++ ((d.tail_idx, val) ∷ []) =
        ap (λ n. items_from (update item d.tail_idx (some val)) n d.head_idx) more
        ∙ items_from_end d.head_idx (d.tail_idx - d.head_idx) d.tail_idx
            (omega (arith, v.ordered)) in
      record {
        inv = record {
          ordered = omega (arith, room, v.ordered);
          words = omega (arith, room);
          outside = λ i out.
              update_ne item d.tail_idx i (some val) (omega (arith, out, room, v.ordered))
              ∙ v.outside i (omega (arith, out, room));
          counted = omega (
            arith,
            ap length listed,
            v.counted,
            length-append (items_from item (d.tail_idx - d.head_idx) d.head_idx)
                ((d.tail_idx, val) ∷ []),
            v.ordered,
            room,
            length-items_from item (d.tail_idx - d.head_idx) d.head_idx,
          );
        };
        listed = listed;
        small = v.words;
      }

pub placed_first :
    (item : ℕ → Option Bytes) (val : Bytes)
    → ((i : ℕ) → item i ≡ none)
    → InRange (update item first_queue_idx (some val)) one_item
      × (items_from (update item first_queue_idx (some val)) 1 first_queue_idx
          ≡ (first_queue_idx, val) ∷ [])
unfolding items_from
placed_first item val free = (
  record {
    ordered = omega arith;
    words = omega arith;
    outside = λ i out. update_ne item first_queue_idx i (some val) (omega (arith, out)) ∙ free i;
    counted = refl;
  },
  refl,
)

module _ {S : Type 0} {hash : Hasher} {config : InternalConfig} {root : Root S} {v : View S}
    (law : IsMap hash config root v) {queue_key : Bytes} (fits : Fits config queue_key)
    {val : Bytes} (small : FitsItem config queue_key val) where
  -- what a push returns and leaves
  pub record Pushed (pos : QueuePos) (c : Cells) : Type 0 where
    pub left : Cells
    pub does :
        Does v queue_key
          (push_to_queue hash config root queue_key val pos)
          c
          (new_idx pos c.desc)
          left
    pub desc : left.desc ≡ some (with_new pos c.desc)
    pub inv : QueueInv left
    pub listed : contents left ≡ placed pos (new_idx pos c.desc, val) (contents c)

  push_none :
      (pos : QueuePos) (item : ℕ → Option Bytes)
      → QueueInv (record { desc = none; item = item })
      → Pushed pos (record { desc = none; item = item })
  unfolding push_to_queue push_idx contents
  push_none pos item free =
      let c : Cells = record { desc = none; item = item } in
      record {
        left = put_item first_queue_idx (some val) (put_desc (some one_item) c);
        does = Holds-bind _ (Does-create_desc law fits c one_item) (
            Holds-bind _ (Holds-pure first_queue_idx _) (
              Holds-bind _
                (Does-set_item law fits (put_desc (some one_item) c) first_queue_idx val
                  (omega arith) small)
                (Holds-pure first_queue_idx _)));
        desc = refl;
        inv = (placed_first item val free).0;
        listed = (placed_first item val free).1 ∙ sym (alone pos);
      }
    where
      alone : (p : QueuePos) → placed p (first_queue_idx, val) [] ≡ (first_queue_idx, val) ∷ []
      alone head = refl
      alone tail = refl

  push_some :
      (pos : QueuePos) (item : ℕ → Option Bytes) (d : Queue)
      → QueueInv (record { desc = some d; item = item })
      → PushRoom pos (some d)
      → Pushed pos (record { desc = some d; item = item })
  unfolding push_to_queue push_idx contents
  push_some pos item d inv room =
      let c : Cells = record { desc = some d; item = item } in
      let p = Placed-at item val pos d inv room in
      record {
        left = put_item (push_at pos d).0 (some val) (put_desc (some (push_at pos d).1) c);
        does = Holds-bind _ (Does-create_desc law fits c one_item) (
            Holds-bind _
              (Holds-bind _ (Does-from_bytes v queue_key d c (InRange-IsWords inv))
                (Holds-bind _ (Does-set_desc law fits c (push_at pos d).1) (Holds-pure _ _)))
              (Holds-bind _
                (Does-set_item law fits (put_desc (some (push_at pos d).1) c) (push_at pos d).0 val
                  p.small small)
                (Holds-pure _ _)));
        desc = refl;
        inv = p.inv;
        listed = p.listed;
      }

  push_any :
      (pos : QueuePos) (o : Option Queue) (item : ℕ → Option Bytes)
      → DescInv item o
      → PushRoom pos o
      → Pushed pos (record { desc = o; item = item })
  push_any pos none item inv room = push_none pos item inv
  push_any pos (some d) item inv room = push_some pos item d inv room

  -- Over a root that keeps the contract of a map, from a valid state that has room for the
  -- insertions that the call makes, on a queue whose descriptor and items agree, with room for an
  -- index, within the limits: a push raises no error, returns the index of the new item, and puts
  -- it before the first item, or behind the last one; the descriptor and the items agree again, and
  -- no other key is changed.
  pub Does-push_to_queue :
      (pos : QueuePos) (c : Cells) → QueueInv c → PushRoom pos c.desc → Pushed pos c
  Does-push_to_queue pos c inv room = push_any pos c.desc c.item inv room
