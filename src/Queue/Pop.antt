-- ===== src/Queue/Pop.antt =====
-- `_pop_queue`: the item at the end of the queue that was asked for; holes are skipped.
use candystore.Store.Holds.{Holds-bind, Holds-eq, Holds-pure}
use candystore.Base.{
  ℕ, zero, suc, ◌+◌, ◌-◌, ◌<◌, ◌≤◌, ◌≡◌, refl, sym, ap, subst, Option, none, some, inl, inr,
  Option-cases, ltb_of_lt, ltb_of_le, arith,
}
use candystore.Base.Bytes.{Bytes}
use candystore.Base.Word.{wrapping_sub}
use candystore.Base.Outcome.{Exec, pure, ◌>>=◌}
use candystore.Hashing.{Hasher}
use candystore.Shard.Mmap.{InternalConfig}
use candystore.Store.{Root, remove_raw}
use candystore.Store.Raw.{View, IsMap}
use candystore.Queue.{
  Queue, QueuePos, pop_at, pop_loop, item_or_more, make_queue_item_key, pop_queue,
}
use candystore.Queue.Cells.{Cells, put_item, put_desc, Does}
use candystore.Queue.Calls.{Fits, Does-from_bytes, Does-get_desc, Does-remove_item}
use candystore.Queue.Contents.{
  Item, items_from, contents, InRange, QueueInv, DescInv, InRange-IsWords,
}
use native.Mathlib.Decide.{dec_lt}
use candystore.Queue.Ends.{
  listing, Took, without, splits, hole-listing, hole-InRange, found-listing, found-InRange,
}
use candystore.Queue.Settled.{kept, stores}

module _ {S : Type 0} {hash : Hasher} {config : InternalConfig} {root : Root S} {v : View S}
    (law : IsMap hash config root v) {queue_key : Bytes} (fits : Fits config queue_key) where
  pop_loop_over :
      (pos : QueuePos) (fuel : ℕ) (d : Queue)
      → d.tail_idx ≤ d.head_idx
      → pop_loop hash config root queue_key pos (suc fuel) d ≡ pure (none, d)
  unfolding pop_loop
  pop_loop_over pos fuel d le = rw (ltb_of_le d.head_idx d.tail_idx le, pop_loop) refl

  pop_loop_round :
      (pos : QueuePos) (fuel : ℕ) (d : Queue)
      → d.head_idx < d.tail_idx
      → pop_loop hash config root queue_key pos (suc fuel) d ≡ (
          remove_raw hash config root (make_queue_item_key queue_key (pop_at pos d).0)
          >>= item_or_more hash config root pos d
              (pop_loop hash config root queue_key pos fuel (pop_at pos d).1))
  unfolding pop_loop
  pop_loop_round pos fuel d lt = rw (ltb_of_lt d.head_idx d.tail_idx lt, pop_loop) refl

  -- what the loop finds in a range, and the range and the items behind it
  record PopFound (pos : QueuePos) (fuel : ℕ) (c : Cells) (d : Queue) : Type 0 where
    out : Option Item
    range : Queue
    item : ℕ → Option Bytes
    does :
        Does v queue_key
          (pop_loop hash config root queue_key pos fuel d)
          c
          (out, range)
          (record c { item = item })
    inv : InRange item range
    took : Took pos (listing c.item d) out (listing item range)

  goes_on :
      (pos : QueuePos) (d : Queue) {more : Exec S (Option Item × Queue)} {c c' : Cells}
      {x : Option Item × Queue} (o : Option Bytes)
      → o ≡ none
      → Does v queue_key more c x c'
      → Does v queue_key (item_or_more hash config root pos d more o) c x c'
  goes_on pos d o e done = rw e done

  stops :
      (pos : QueuePos) (d : Queue) (more : Exec S (Option Item × Queue)) {c : Cells}
      (o : Option Bytes) (x : Bytes)
      → o ≡ some x
      → Does v queue_key
          (item_or_more hash config root pos d more o)
          c
          (
            some ((pop_at pos d).0, x),
            record (pop_at pos d).1 { num_items = wrapping_sub d.num_items 1 },
          )
          c
  stops pos d more {c} o x e = rw e (Holds-pure _ c)

  finds :
      (pos : QueuePos) (fuel : ℕ) (c : Cells) (d : Queue)
      → InRange c.item d
      → d.tail_idx - d.head_idx < fuel
      → PopFound pos fuel c d
  unfolding pop_loop items_from
  finds pos zero c d inv enough = absurd (omega arith)
  finds pos (suc fuel) c d inv enough = elim (dec_lt d.head_idx d.tail_idx) [
    | no over ↦
        let e : d.tail_idx - d.head_idx ≡ 0 = omega arith in
        record {
          out = none;
          range = d;
          item = c.item;
          does = Holds-eq (pop_loop_over pos fuel d (omega arith)) (Holds-pure (none, d) c);
          inv = inv;
          took = (
            ap (λ n. items_from c.item n d.head_idx) e,
            ap (λ n. items_from c.item n d.head_idx) e,
          );
        }
    | yes lt ↦
        let p = splits c.item pos d inv lt in
        elim (Option-cases (c.item (pop_at pos d).0)) [
          | inl e ↦
              let f =
                finds pos fuel (put_item (pop_at pos d).0 none c) (pop_at pos d).1
                  (hole-InRange c.item inv p e) (omega (arith, p.shorter)) in
              record {
                out = f.out;
                range = f.range;
                item = f.item;
                does = Holds-eq (pop_loop_round pos fuel d lt) (
                    Holds-bind _ (Does-remove_item law fits c (pop_at pos d).0 p.small)
                      (goes_on pos d (c.item (pop_at pos d).0) e f.does));
                inv = f.inv;
                took =
                    subst (λ l. Took pos l f.out (listing f.item f.range))
                      (hole-listing c.item inv p e) f.took;
              }
          | inr (x, e) ↦ record {
            out = some ((pop_at pos d).0, x);
            range = record (pop_at pos d).1 { num_items = wrapping_sub d.num_items 1 };
            item = without c.item (pop_at pos d).0;
            does = Holds-eq (pop_loop_round pos fuel d lt) (
                Holds-bind _ (Does-remove_item law fits c (pop_at pos d).0 p.small)
                  (stops pos d _ (c.item (pop_at pos d).0) x e));
            inv = found-InRange c.item inv p x e;
            took = found-listing c.item inv p x e;
          }
        ]
  ]

  -- what a pop returns and leaves
  pub record Popped (pos : QueuePos) (c : Cells) : Type 0 where
    pub out : Option Item
    pub left : Cells
    pub does : Does v queue_key (pop_queue hash config root queue_key pos) c out left
    pub inv : QueueInv left
    pub took : Took pos (contents c) out (contents left)

  pop_some :
      (pos : QueuePos) (item : ℕ → Option Bytes) (d : Queue)
      → InRange item d
      → Popped pos (record { desc = some d; item = item })
  unfolding pop_queue contents
  pop_some pos item d inv =
      let c : Cells = record { desc = some d; item = item } in
      let f = finds pos (d.tail_idx - d.head_idx + 1) c d inv (omega arith) in
      let st = stores law fits (record c { item = f.item }) f.range f.inv in
      record {
        out = f.out;
        left = put_desc (kept f.range) (record c { item = f.item });
        does = Holds-bind _ (Does-get_desc law fits c) (
            Holds-bind _ (Does-from_bytes v queue_key d c (InRange-IsWords inv))
              (Holds-bind _ f.does (Holds-bind _ st.does (Holds-pure f.out _))));
        inv = st.inv;
        took = subst (Took pos (listing item d) f.out) (sym st.listed) f.took;
      }

  pop_any :
      (pos : QueuePos) (o : Option Queue) (item : ℕ → Option Bytes)
      → DescInv item o
      → Popped pos (record { desc = o; item = item })
  unfolding pop_queue contents
  pop_any pos none item free =
      let c : Cells = record { desc = none; item = item } in
      record {
        out = none;
        left = c;
        does = Holds-bind _ (Does-get_desc law fits c) (Holds-pure none c);
        inv = free;
        took = (refl, refl);
      }
  pop_any pos (some d) item inv = pop_some pos item d inv

  -- Over a root that keeps the contract of a map, from a valid state that has room for the
  -- insertions that the call makes, on a queue whose descriptor and items agree, within the limits:
  -- a pop raises no error, skips the holes, takes the first item with its index, or the last one,
  -- off the queue and returns it, or returns nothing if the queue holds nothing; the descriptor and
  -- the items agree again, and no other key is changed.
  pub Does-pop_queue : (pos : QueuePos) (c : Cells) → QueueInv c → Popped pos c
  Does-pop_queue pos c inv = pop_any pos c.desc c.item inv
