-- ===== src/Queue/Peek.antt =====
-- Peeking at a queue, its length and its range.
use candystore.Store.Holds.{Holds-bind, Holds-pure}
use candystore.Base.{
  Bool, ℕ, ◌+◌, ◌-◌, ◌^◌, ◌≤◌, ◌≡◌, refl, sym, ap, subst, ◌∙◌, Option, none, some, List, [], ◌∷◌,
  ◌++◌, arith,
}
use candystore.Base.Bytes.{Bytes, length}
use candystore.Hashing.{Hasher}
use candystore.Shard.Mmap.{InternalConfig}
use candystore.Store.{Root}
use candystore.Store.Raw.{View, IsMap}
use candystore.Queue.{Queue, QueuePos, head, tail}
use candystore.Queue.Cells.{Cells, Does}
use candystore.Queue.Calls.{Fits, Does-from_bytes, Does-get_desc}
use candystore.Queue.Contents.{Item, contents, QueueInv, DescInv, InRange-IsWords}
use candystore.Queue.Ends.{Took}
use candystore.Queue.Next.{end_of, spanned, sees}
use candystore.Queue.Walk.{Span, next, fetch_queue, peek_with_idx, queue_len, queue_range}
use candystore.Queue.{first_queue_idx}

abbrev last_of : List Item → Option Item
last_of [] = none
last_of (x ∷ []) = some x
last_of (x ∷ y ∷ xs) = last_of (y ∷ xs)

-- the item at an end of a list
abbrev pub front : QueuePos → List Item → Option Item
front head [] = none
front head (x ∷ xs) = some x
front tail xs = last_of xs

last_of-snoc : (xs : List Item) (x : Item) → last_of (xs ++ (x ∷ [])) ≡ some x
last_of-snoc [] x = refl
last_of-snoc (y ∷ []) x = refl
last_of-snoc (y ∷ z ∷ xs) x = last_of-snoc (z ∷ xs) x

pub Took-front :
    (pos : QueuePos) (xs : List Item) (out : Option Item) (ys : List Item)
    → Took pos xs out ys
    → front pos xs ≡ out
Took-front head xs none ys (e, e') = ap (front head) e
Took-front tail xs none ys (e, e') = ap (front tail) e
Took-front head xs (some x) ys e = ap (front head) e
Took-front tail xs (some x) ys e = ap (front tail) e ∙ last_of-snoc ys x

abbrev pub range_of : Option Queue → Span
range_of none = (first_queue_idx, first_queue_idx)
range_of (some d) = (d.head_idx, d.tail_idx)

-- what an iterator has still to go over
abbrev pub remaining : Cells → Option Span → List Item
remaining c none = contents c
remaining c (some range) = spanned c.item range

abbrev pub IsSpan : Option Span → Type 0
IsSpan none = Unit
IsSpan (some range) = range.1 ≤ 2 ^ 64

module _ {S : Type 0} {hash : Hasher} {config : InternalConfig} {root : Root S} {v : View S}
    (law : IsMap hash config root v) {queue_key : Bytes} (fits : Fits config queue_key) where
  fetch_any :
      (o : Option Queue) (item : ℕ → Option Bytes)
      → DescInv item o
      → Does v queue_key
          (fetch_queue hash config root queue_key)
          (record { desc = o; item = item })
          o
          (record { desc = o; item = item })
  unfolding fetch_queue
  fetch_any none item free =
      Holds-bind _ (Does-get_desc law fits (record { desc = none; item = item }))
        (Holds-pure none _)
  fetch_any (some d) item inv =
      Holds-bind _ (Does-get_desc law fits (record { desc = some d; item = item })) (
        Holds-bind _ (Does-from_bytes v queue_key d _ (InRange-IsWords inv))
          (Holds-pure (some d) _))

  -- what a call of an iterator finds
  pub record Steps (fwd : Bool) (c : Cells) (o : Option Span) : Type 0 where
    pub out : Option Item
    pub rest : Option Span
    pub does : Does v queue_key (next hash config root queue_key fwd o) c (out, rest) c
    pub took : Took (end_of fwd) (remaining c o) out (remaining c rest)
    pub word : IsSpan rest

  ranged : (fwd : Bool) (c : Cells) (range : Span) → range.1 ≤ 2 ^ 64 → Steps fwd c (some range)
  unfolding next
  ranged fwd c range word =
      let f = sees law fits fwd (range.1 - range.0 + 1) c range word (omega arith) in
      record {
        out = f.out;
        rest = some f.rest;
        does = Holds-bind _ f.does (Holds-pure (f.out, some f.rest) c);
        took = f.took;
        word = omega (arith, f.top);
      }

  first_any :
      (fwd : Bool) (o : Option Queue) (item : ℕ → Option Bytes)
      → DescInv item o
      → Steps fwd (record { desc = o; item = item }) none
  unfolding next contents
  first_any fwd none item free = record {
    out = none;
    rest = none;
    does = Holds-bind _ (fetch_any none item free) (Holds-pure (none, none) _);
    took = (refl, refl);
    word = tt;
  }
  first_any fwd (some d) item inv =
      let c : Cells = record { desc = some d; item = item } in
      let f = ranged fwd c (d.head_idx, d.tail_idx) (omega (arith, inv.words)) in
      record {
        out = f.out;
        rest = f.rest;
        does = Holds-bind _ (fetch_any (some d) item inv) f.does;
        took = f.took;
        word = f.word;
      }

  pub steps : (fwd : Bool) (c : Cells) (o : Option Span) → QueueInv c → IsSpan o → Steps fwd c o
  steps fwd c none inv word = first_any fwd c.desc c.item inv
  steps fwd c (some range) inv word = ranged fwd c range word

  -- Over a root that keeps the contract of a map, from a valid state that has room for the
  -- insertions that the call makes, on a queue whose descriptor and items agree, within the limits,
  -- peeking raises no error, returns the first item with its index, or the last one, or nothing if
  -- the queue holds nothing, and changes nothing.
  pub Does-peek_with_idx :
      (fwd : Bool) (c : Cells)
      → QueueInv c
      → Does v queue_key
          (peek_with_idx hash config root queue_key fwd)
          c
          (front (end_of fwd) (contents c))
          c
  unfolding peek_with_idx
  Does-peek_with_idx fwd c inv =
      let f = first_any fwd c.desc c.item inv in
      subst (λ o. Does v queue_key (peek_with_idx hash config root queue_key fwd) c o c)
        (sym (Took-front (end_of fwd) (contents c) f.out _ f.took))
        (Holds-bind _ f.does (Holds-pure f.out c))

  len_any :
      (o : Option Queue) (item : ℕ → Option Bytes)
      → DescInv item o
      → Does v queue_key
          (queue_len hash config root queue_key)
          (record { desc = o; item = item })
          (length (contents (record { desc = o; item = item })))
          (record { desc = o; item = item })
  unfolding queue_len contents
  len_any none item free = Holds-bind _ (fetch_any none item free) (Holds-pure 0 _)
  len_any (some d) item inv =
      subst
        (λ n.
          Does v queue_key (queue_len hash config root queue_key)
            (record { desc = some d; item = item }) n (record { desc = some d; item = item }))
        inv.counted (Holds-bind _ (fetch_any (some d) item inv) (Holds-pure d.num_items _))

  -- Over a root that keeps the contract of a map, from a valid state that has room for the
  -- insertions that the call makes, on a queue whose descriptor and items agree, within the limits,
  -- `queue_len` returns how many items the queue holds, without an error, and changes nothing.
  pub Does-queue_len :
      (c : Cells)
      → QueueInv c
      → Does v queue_key (queue_len hash config root queue_key) c (length (contents c)) c
  Does-queue_len c inv = len_any c.desc c.item inv

  range_any :
      (o : Option Queue) (item : ℕ → Option Bytes)
      → DescInv item o
      → Does v queue_key
          (queue_range hash config root queue_key)
          (record { desc = o; item = item })
          (range_of o)
          (record { desc = o; item = item })
  unfolding queue_range
  range_any none item free = Holds-bind _ (fetch_any none item free) (Holds-pure _ _)
  range_any (some d) item inv = Holds-bind _ (fetch_any (some d) item inv) (Holds-pure _ _)

  pub Does-queue_range :
      (c : Cells)
      → QueueInv c
      → Does v queue_key (queue_range hash config root queue_key) c (range_of c.desc) c
  Does-queue_range c inv = range_any c.desc c.item inv
