-- ===== src/Store/BigLaws.antt =====
-- Big items: what was set is what is read.
use candystore.Store.Holds.{Holds-bind, Holds-pure}
use candystore.Base.{
  ℕ, ◌+◌, ◌^◌, ◌<◌, ◌≤◌, ◌≡◌, refl, ap, ◌∙◌, Option, none, some, List, [], ◌∷◌, ◌++◌, arith,
}
use candystore.Base.Bytes.{Bytes, length}
use candystore.Hashing.{Hasher}
use candystore.Shard.Mmap.{InternalConfig}
use candystore.Store.{Root}
use candystore.Store.Raw.{View, IsMap}
use candystore.Queue.{Queue, tail}
use candystore.Queue.Cells.{Cells, Does}
use candystore.Queue.Calls.{Fits, FitsItem}
use candystore.Queue.Contents.{contents, QueueInv}
use candystore.Base.Word.{le_bytes, length-le_bytes}
use candystore.Store.{max_value_size}
use candystore.Store.Big.{chunks, set_big, get_big}
use candystore.Store.Chunks.{concat-chunks, length-chunks, chunks-AllFit}
use candystore.Queue.{first_queue_idx, push_at}
use candystore.Queue.Push.{PushRoom, Does-push_to_queue, with_new, new_idx}
use candystore.Queue.Extend.{numbered, next_tail, Extended, Does-extend_queue}
use candystore.Queue.Discard.{is_some, Does-discard_queue}
use candystore.Queue.Peek.{range_of}
use candystore.Store.BigReads.{gets_big}

module _ {S : Type 0} {hash : Hasher} {config : InternalConfig} {root : Root S} {v : View S}
    (law : IsMap hash config root v) {queue_key : Bytes} (fits : Fits config queue_key) where
  -- what setting a big item returns and leaves, and what is read then
  pub record WroteBig (c : Cells) (val : Bytes) : Type 0 where
    pub left : Cells
    pub does : Does v queue_key (set_big hash config root queue_key val) c (is_some c.desc) left
    pub inv : QueueInv left
    pub reads : Does v queue_key (get_big hash config root queue_key) left (some val) left

  abbrev big_chunks : Bytes → List Bytes
  big_chunks val = chunks max_value_size (length val) val

  room_at_tail : (o : Option Queue) → next_tail o + 1 < 2 ^ 64 → PushRoom tail o
  room_at_tail none lt = tt
  room_at_tail (some d) lt = lt

  new_at_tail :
      (o : Option Queue)
      → next_tail o + 1 < 2 ^ 64
      → (new_idx tail o ≡ next_tail o) × ((with_new tail o).tail_idx ≡ next_tail o + 1)
  unfolding push_at
  new_at_tail none lt = (refl, omega arith)
  new_at_tail (some d) lt = (refl, omega (arith, lt))

  module _ (val : Bytes) (small : length val + 1 < 2 ^ 63)
      (entry : length queue_key + 9 + max_value_size ≤ config.max_shard_size) where
    abbrev last : ℕ
    last = first_queue_idx + length (big_chunks val)

    length_fits : FitsItem config queue_key (le_bytes 8 (length val))
    length_fits = record {
      size = omega (arith, length-le_bytes 8 (length val));
      entry = omega (arith, length-le_bytes 8 (length val), entry);
    }

    extended :
        (item : ℕ → Option Bytes)
        → ((i : ℕ) → item i ≡ none)
        → Extended law fits (record { desc = none; item = item }) (big_chunks val)
    extended item gone =
        Does-extend_queue law fits (record { desc = none; item = item }) (big_chunks val) gone
          (omega (arith, length-chunks max_value_size (omega arith) (length val) val, small))
          (chunks-AllFit max_value_size (omega arith) config queue_key (length val) val
            (omega arith) entry)

    -- Over a root that keeps the contract of a map, from a valid state that has room for the
    -- insertions that the call makes, on a queue whose descriptor and items agree, with keys and
    -- chunks within the limits, for a value of less than `2 ^ 63 - 1` bytes: `set_big` raises no
    -- error, returns whether the key had a queue, leaves a queue whose descriptor and items agree,
    -- and changes no other key; then `get_big` returns the value, without an error, and changes
    -- nothing.
    pub set_big-get_big : (c : Cells) → QueueInv c → WroteBig c val
    unfolding set_big contents
    set_big-get_big c inv =
        let d = Does-discard_queue law fits c inv in
        let x = extended d.item d.gone in
        let k : length (big_chunks val) ≤ length val =
          length-chunks max_value_size (omega arith) (length val) val in
        let room : next_tail x.left.desc + 1 < 2 ^ 64 = omega (arith, x.end, k, small) in
        let p =
          Does-push_to_queue law fits length_fits tail x.left x.inv
            (room_at_tail x.left.desc room) in
        let new = new_at_tail x.left.desc room in
        let idx : new_idx tail x.left.desc ≡ last = new.0 ∙ x.end in
        record {
          left = p.left;
          does =
              Holds-bind _ d.does
                (Holds-bind _ x.does (Holds-bind _ p.does (Holds-pure (is_some c.desc) p.left)));
          inv = p.inv;
          reads = gets_big law fits p.left val (record {
            base = first_queue_idx;
            cs = big_chunks val;
            last = last;
            inv = p.inv;
            listed =
                p.listed
                ∙ ap (λ l. l ++ ((new_idx tail x.left.desc, le_bytes 8 (length val)) ∷ [])) x.listed
                ∙ ap
                    (λ i.
                      numbered first_queue_idx (big_chunks val)
                      ++ ((i, le_bytes 8 (length val)) ∷ []))
                    idx;
            at = refl;
            whole = concat-chunks max_value_size (omega arith) (length val) val (omega arith);
            end = ap (λ o. (range_of o).1) p.desc ∙ new.1 ∙ ap (λ i. i + 1) x.end;
            word = omega (arith, k, small);
            len = omega (arith, small);
          });
        }
