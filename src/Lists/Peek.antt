-- ===== src/Lists/Peek.antt =====
-- The calls of a list's iterator, peeking and the length.
use candystore.Base.{ℕ, ◌+◌, ◌-◌, ◌^◌, ◌≤◌, refl, sym, ap, Bool, Option, none, some, List, arith}
use candystore.Base.Bytes.{Bytes, length}
use candystore.Hashing.{Hasher}
use candystore.Shard.Mmap.{InternalConfig}
use candystore.Store.Raw.{View, IsMap}
use candystore.Store.Holds.{Holds-pure, Holds-bind, Holds-told}
use candystore.Queue.Contents.{Item, contents, DescInv, InRange-IsWords}
use candystore.Queue.Ends.{Took}
use candystore.Queue.Next.{end_of, spanned}
use candystore.Queue.Peek.{front, Took-front, IsSpan}
use candystore.Queue.Walk.{Span}
use candystore.Lists.{ListDesc, HashRoot}
use candystore.Lists.Walk.{fetch_list, next, peek_list, owned_list_len}
use candystore.Lists.Cells.{ListCells}
use candystore.Lists.Calls.{ListFits, ListHolds, holds_from_bytes, holds_get_desc}
use candystore.Lists.Inv.{ListInv, members}
use candystore.Lists.Next.{shown_in, list_sees}
use candystore.Lists.Index.{IsHashMap}

-- what an iterator has still to go over
abbrev pub members_left : ListCells → Option Span → List Item
members_left c none = members c
members_left c (some range) = spanned c.chain range

module _ {S : Type 0} {hash : Hasher} {config : InternalConfig} (hr : HashRoot S) {v : View S}
    (law : IsMap hash config hr.root v) {list_key : Bytes} (fits : ListFits config list_key) where
  pub fetches_list :
      (o : Option ListDesc) (chain : ℕ → Option Bytes) (item : Bytes → Option (Bytes × ℕ))
      → DescInv chain o
      → ListHolds law fits
          (fetch_list hash config hr list_key)
          (record { desc = o; chain = chain; item = item })
          o
          (record { desc = o; chain = chain; item = item })
  unfolding fetch_list
  fetches_list none chain item free =
      Holds-bind _ (holds_get_desc law fits (record { desc = none; chain = chain; item = item }))
        (Holds-pure none _)
  fetches_list (some d) chain item range =
      Holds-bind _ (holds_get_desc law fits (record { desc = some d; chain = chain; item = item }))
        (Holds-bind _ (holds_from_bytes law fits d _ (InRange-IsWords range))
          (Holds-pure (some d) _))

  list_counts :
      (o : Option ListDesc) (chain : ℕ → Option Bytes) (item : Bytes → Option (Bytes × ℕ))
      → DescInv chain o
      → ListHolds law fits
          (owned_list_len hash config hr list_key)
          (record { desc = o; chain = chain; item = item })
          (length (members (record { desc = o; chain = chain; item = item })))
          (record { desc = o; chain = chain; item = item })
  unfolding owned_list_len contents
  list_counts none chain item free =
      Holds-bind _ (fetches_list none chain item free) (Holds-pure 0 _)
  list_counts (some d) chain item range =
      Holds-told range.counted
        (Holds-bind _ (fetches_list (some d) chain item range) (Holds-pure d.num_items _))

  -- On a list whose descriptor, chain and items agree, within the limits, `list_len` returns how
  -- many items the list holds, without an error, and changes nothing.
  pub holds_owned_list_len :
      (c : ListCells)
      → ListInv c
      → ListHolds law fits (owned_list_len hash config hr list_key) c (length (members c)) c
  holds_owned_list_len c inv = list_counts c.desc c.chain c.item inv.range

module _ {S : Type 0} {hash : Hasher} {config : InternalConfig} {hr : HashRoot S} {v : View S}
    (laws : IsHashMap hash config hr v) {list_key : Bytes} (fits : ListFits config list_key) where
  -- what a call of the iterator returns
  pub record ListSteps (fwd : Bool) (c : ListCells) (o : Option Span) : Type 0 where
    pub out : Option Item
    pub rest : Option Span
    pub holds :
        ListHolds laws.law fits (next hash config hr list_key fwd o) c (shown_in c out, rest) c
    pub took : Took (end_of fwd) (members_left c o) out (members_left c rest)
    pub word : IsSpan rest

  list_ranged :
      (fwd : Bool) (c : ListCells) (range : Span)
      → ListInv c
      → range.1 ≤ 2 ^ 64
      → ListSteps fwd c (some range)
  unfolding next
  list_ranged fwd c range inv word =
      let f = list_sees laws fits fwd (range.1 - range.0 + 1) c range inv word (omega arith) in
      record {
        out = f.out;
        rest = some f.rest;
        holds = Holds-bind _ f.holds (Holds-pure (shown_in c f.out, some f.rest) c);
        took = f.took;
        word = omega (arith, f.top);
      }

  first_in_list :
      (fwd : Bool) (o : Option ListDesc) (chain : ℕ → Option Bytes)
      (item : Bytes → Option (Bytes × ℕ))
      → ListInv (record { desc = o; chain = chain; item = item })
      → ListSteps fwd (record { desc = o; chain = chain; item = item }) none
  unfolding next contents
  first_in_list fwd none chain item inv = record {
    out = none;
    rest = none;
    holds =
        Holds-bind _ (fetches_list hr laws.law fits none chain item inv.range)
          (Holds-pure (none, none) _);
    took = (refl, refl);
    word = tt;
  }
  first_in_list fwd (some d) chain item inv =
      let c : ListCells = record { desc = some d; chain = chain; item = item } in
      let f = list_ranged fwd c (d.head_idx, d.tail_idx) inv (omega (arith, inv.range.words)) in
      record {
        out = f.out;
        rest = f.rest;
        holds = Holds-bind _ (fetches_list hr laws.law fits (some d) chain item inv.range) f.holds;
        took = f.took;
        word = f.word;
      }

  -- Over a root that keeps the contract of a map and of `get_by_hash`, from a valid state that has
  -- room for the insertions that the call makes, on a list whose descriptor, chain and items agree,
  -- within the limits: a call of the iterator raises no error, skips the holes, returns the key and
  -- value of the first of the items that it has still to go over, or of the last one if it goes
  -- backwards, or nothing if there is none, has the others to go over behind it, and changes
  -- nothing.
  pub Holds-next :
      (fwd : Bool) (c : ListCells) (o : Option Span) → ListInv c → IsSpan o → ListSteps fwd c o
  Holds-next fwd c none inv word = first_in_list fwd c.desc c.chain c.item inv
  Holds-next fwd c (some range) inv word = list_ranged fwd c range inv word

  pub holds_peek_list :
      (fwd : Bool) (c : ListCells)
      → ListInv c
      → ListHolds laws.law fits
          (peek_list hash config hr list_key fwd)
          c
          (shown_in c (front (end_of fwd) (members c)))
          c
  unfolding peek_list
  holds_peek_list fwd c inv =
      let f = Holds-next fwd c none inv tt in
      Holds-told (ap (shown_in c) (sym (Took-front (end_of fwd) (members c) f.out _ f.took)))
        (Holds-bind _ f.holds (Holds-pure (shown_in c f.out) c))
