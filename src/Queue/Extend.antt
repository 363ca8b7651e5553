-- ===== src/Queue/Extend.antt =====
-- `extend_queue`: the items stand behind the last one, in their order.
use candystore.Store.Holds.{Holds-bind, Holds-pure, Holds-told}
use candystore.Base.{
  ℕ, ◌+◌, ◌^◌, ◌<◌, ◌≡◌, refl, sym, ap, ◌∙◌, Option, none, some, List, [], ◌∷◌, ◌++◌, arith,
}
use candystore.Base.Bytes.{Bytes, length}
use candystore.Base.Word.{wrapping_add}
use candystore.Base.Outcome.{pure, ◌>>=◌, ◌>>◌}
use candystore.Hashing.{Hasher}
use candystore.Shard.Mmap.{InternalConfig}
use candystore.Store.{Root, set_raw}
use candystore.Store.Raw.{View, IsMap}
use candystore.Queue.{Queue, tail}
use candystore.Queue.Cells.{Cells, put_item, Does}
use candystore.Queue.Calls.{Fits, FitsItem, Does-from_bytes, Does-set_desc}
use candystore.Queue.Contents.{
  Item, items_from, contents, InRange, QueueInv, DescInv, InRange-IsWords,
}
use mathlib.Core.List.{append-nil}
use candystore.Queue.Ends.{listing}
use candystore.Queue.Push.{Placed-at}
use candystore.Queue.Walk.{Span, extend_items, extend_queue}
use candystore.Queue.{
  from_queue_bytes, make_queue_key, no_item, first_queue_idx, push_at, bytes_of_queue,
}
use candystore.Queue.Calls.{Does-set_item, Does-create_desc}
use mathlib.Core.List.{append_assoc}

-- values with the indices that they get
unfoldable pub numbered : ℕ → List Bytes → List Item
numbered i [] = []
numbered i (x ∷ xs) = (i, x) ∷ numbered (i + 1) xs

unfoldable pub AllFit : InternalConfig → Bytes → List Bytes → Type 0
AllFit config queue_key [] = Unit
AllFit config queue_key (x ∷ xs) = FitsItem config queue_key x × AllFit config queue_key xs

-- the index of the next item
abbrev pub next_tail : Option Queue → ℕ
next_tail none = first_queue_idx
next_tail (some d) = d.tail_idx

module _ {S : Type 0} {hash : Hasher} {config : InternalConfig} {root : Root S} {v : View S}
    (law : IsMap hash config root v) {queue_key : Bytes} (fits : Fits config queue_key) where
  record Grown (c : Cells) (d : Queue) (items : List Bytes) : Type 0 where
    range : Queue
    item : ℕ → Option Bytes
    does :
        Does v queue_key
          (extend_items hash config root queue_key items d)
          c
          range
          (record c { item = item })
    inv : InRange item range
    end : range.tail_idx ≡ d.tail_idx + length items
    listed : listing item range ≡ listing c.item d ++ numbered d.tail_idx items

  grows :
      (items : List Bytes) (c : Cells) (d : Queue)
      → InRange c.item d
      → d.tail_idx + length items < 2 ^ 64
      → AllFit config queue_key items
      → Grown c d items
  unfolding extend_items numbered AllFit push_at
  grows [] c d inv room fit = record {
    range = d;
    item = c.item;
    does = Holds-pure d c;
    inv = inv;
    end = omega arith;
    listed = sym (append-nil (listing c.item d));
  }
  grows (x ∷ xs) c d inv room fit =
      let p = Placed-at c.item x tail d inv (omega arith) in
      let next : wrapping_add d.tail_idx 1 ≡ d.tail_idx + 1 = omega (arith, room) in
      let f =
        grows xs (put_item d.tail_idx (some x) c) (push_at tail d).1 p.inv (omega (arith, next))
          fit.1 in
      record {
        range = f.range;
        item = f.item;
        does = Holds-bind _ (Does-set_item law fits c d.tail_idx x p.small fit.0) f.does;
        inv = f.inv;
        end = omega (arith, f.end, next);
        listed =
            f.listed
            ∙ ap (λ l. l ++ numbered (wrapping_add d.tail_idx 1) xs) p.listed
            ∙ ap (λ i. (listing c.item d ++ ((d.tail_idx, x) ∷ [])) ++ numbered i xs) next
            ∙ append_assoc (listing c.item d) ((d.tail_idx, x) ∷ []) (numbered (d.tail_idx + 1) xs);
      }

  -- what an extension returns and leaves
  pub record Extended (c : Cells) (items : List Bytes) : Type 0 where
    pub left : Cells
    pub does :
        Does v queue_key
          (extend_queue hash config root queue_key items)
          c
          (next_tail c.desc, next_tail c.desc + length items)
          left
    pub inv : QueueInv left
    pub listed : contents left ≡ contents c ++ numbered (next_tail c.desc) items
    pub end : next_tail left.desc ≡ next_tail c.desc + length items

  -- what `extend_queue` does once it has the descriptor
  extends :
      (c : Cells) (d : Queue) (items : List Bytes) (g : Grown c d items)
      → InRange c.item d
      → Does v queue_key {A = Span}
          (do
            d ← from_queue_bytes (bytes_of_queue d)
            left ← extend_items hash config root queue_key items d
            set_raw hash config root (make_queue_key queue_key) (bytes_of_queue left)
            pure (d.tail_idx, left.tail_idx))
          c
          (d.tail_idx, d.tail_idx + length items)
          (record { desc = some g.range; item = g.item })
  extends c d items g inv = Holds-told (ap (λ n. (d.tail_idx, n)) g.end) (
      Holds-bind _ (Does-from_bytes v queue_key d c (InRange-IsWords inv)) (
        Holds-bind _ g.does (
          Holds-bind _ (Does-set_desc law fits (record c { item = g.item }) g.range)
            (Holds-pure _ _))))

  extend_any :
      (o : Option Queue) (item : ℕ → Option Bytes) (items : List Bytes)
      → DescInv item o
      → next_tail o + length items < 2 ^ 64
      → AllFit config queue_key items
      → Extended (record { desc = o; item = item }) items
  unfolding extend_queue contents items_from
  extend_any none item items free room fit =
      let inv : InRange item no_item = record {
        ordered = omega arith;
        words = omega arith;
        outside = λ i out. free i;
        counted = refl;
      } in
      let g = grows items (record { desc = some no_item; item = item }) no_item inv room fit in
      record {
        left = record { desc = some g.range; item = g.item };
        does =
            Holds-bind _ (Does-create_desc law fits (record { desc = none; item = item }) no_item)
              (extends (record { desc = some no_item; item = item }) no_item items g inv);
        inv = g.inv;
        listed = g.listed;
        end = g.end;
      }
  extend_any (some d) item items inv room fit =
      let g = grows items (record { desc = some d; item = item }) d inv room fit in
      record {
        left = record { desc = some g.range; item = g.item };
        does =
            Holds-bind _ (Does-create_desc law fits (record { desc = some d; item = item }) no_item)
              (extends (record { desc = some d; item = item }) d items g inv);
        inv = g.inv;
        listed = g.listed;
        end = g.end;
      }

  -- Over a root that keeps the contract of a map, from a valid state that has room for the
  -- insertions that the call makes, on a queue whose descriptor and items agree, with room for the
  -- indices, within the limits: `extend_queue` raises no error, returns the range of the new
  -- indices, and puts the values behind the last item in their order; the descriptor and the items
  -- agree again, and no other key is changed.
  pub Does-extend_queue :
      (c : Cells) (items : List Bytes)
      → QueueInv c
      → next_tail c.desc + length items < 2 ^ 64
      → AllFit config queue_key items
      → Extended c items
  Does-extend_queue c items inv room fit = extend_any c.desc c.item items inv room fit
