-- ===== src/Lists/Compact.antt =====
-- `compact_list_if_needed`: the list has the same items in the same order, and no holes.
use candystore.Base.{
  ℕ, ◌+◌, ◌-◌, ◌^◌, ◌<◌, ◌≡◌, refl, sym, ap, ◌∙◌, Bool, true, false, Option, none, some, inl, inr,
  Bool-cases, arith,
}
use candystore.Base.Bytes.{Bytes, length}
use candystore.Base.Word.{wrapping_sub}
use candystore.Base.Outcome.{pure, ◌>>=◌, ◌>>◌}
use candystore.Hashing.{Hasher}
use candystore.Shard.Mmap.{InternalConfig}
use candystore.Store.Raw.{View}
use candystore.Store.Holds.{Holds-pure, Holds-bind, Holds-told, Holds-eq}
use candystore.Queue.{is_empty}
use candystore.Queue.Contents.{items_from, length-items_from, contents, InRange}
use candystore.Queue.Settled.{kept, settles}
use candystore.Lists.{ListDesc, HashRoot, store_list}
use candystore.Lists.Walk.{compact_list_if_needed, move_in_range}
use candystore.Lists.Cells.{ListCells, put_desc, ph_of}
use candystore.Lists.Calls.{ListFits, ListHolds}
use candystore.Lists.Inv.{ListInv, members, value_of}
use candystore.Lists.Remove.{stores_list}
use candystore.Lists.Peek.{fetches_list}
use candystore.Lists.Index.{IsHashMap, ListInv-Leading}
use candystore.Lists.Moved.{ItemsFit}
use candystore.Lists.Moves.{keys_of, RangeMoved, moves}
use native.Mathlib.Decide.{dec_lt}

-- the test on the span and the holes of a list
abbrev pub decided : (ℕ → ℕ → Bool) → Option ListDesc → Bool
decided worth none = false
decided worth (some d) = worth (d.tail_idx - d.head_idx) (d.tail_idx - d.head_idx - d.num_items)

-- a span of indices is left behind the tail
abbrev pub SpanRoom : Option ListDesc → Type 0
SpanRoom none = Unit
SpanRoom (some d) = d.tail_idx + (d.tail_idx - d.head_idx) < 2 ^ 64

abbrev pub NoHoles : Option ListDesc → Type 0
NoHoles none = Unit
NoHoles (some d) = d.num_items ≡ d.tail_idx - d.head_idx

-- the range that the items were moved to
abbrev moved_to : ListDesc → ℕ → ListDesc
moved_to d new_idx = record {
  head_idx = d.tail_idx;
  tail_idx = new_idx;
  num_items = wrapping_sub new_idx d.tail_idx;
}

kept-NoHoles : (d : ListDesc) → NoHoles (some d) → NoHoles (kept d)
kept-NoHoles d whole = elim (Bool-cases (is_empty d)) [ inl e ↦ rw e tt | inr e ↦ rw e whole ]

spans :
    (chain : ℕ → Option Bytes) (d : ListDesc)
    → InRange chain d
    → wrapping_sub d.tail_idx d.head_idx ≡ d.tail_idx - d.head_idx
spans chain d r = omega (arith, r.ordered, r.words)

holes :
    (chain : ℕ → Option Bytes) (d : ListDesc)
    → InRange chain d
    → wrapping_sub (d.tail_idx - d.head_idx) d.num_items ≡ d.tail_idx - d.head_idx - d.num_items
holes chain d r =
    omega (arith, r.counted, r.words, length-items_from chain (d.tail_idx - d.head_idx) d.head_idx)

module _ {S : Type 0} {hash : Hasher} {config : InternalConfig} {hr : HashRoot S} {v : View S}
    (laws : IsHashMap hash config hr v) {list_key : Bytes} (fits : ListFits config list_key) where
  moved_to-InRange :
      (c : ListCells) (d : ListDesc)
      → InRange c.chain d
      → (p : RangeMoved laws fits (d.tail_idx - d.head_idx) d.head_idx d.tail_idx c)
      → d.tail_idx + (d.tail_idx - d.head_idx) < 2 ^ 64
      → InRange p.left.chain (moved_to d (d.tail_idx + p.count))
  moved_to-InRange c d r p room =
      let span : d.tail_idx + p.count - d.tail_idx ≡ p.count = omega arith in
      record {
        ordered = omega arith;
        words = omega (arith, p.few, room);
        outside = λ i out. elim (dec_lt i d.head_idx) [
          | yes lt ↦ p.below i lt ∙ r.outside i (inl lt)
          | no ge ↦ elim (dec_lt i d.tail_idx) [
            | yes lt ↦ p.gone i (omega arith) (omega (arith, r.ordered))
            | no ge' ↦ p.above i (omega (arith, out))
          ]
        ];
        counted = omega (
          arith,
          p.whole,
          ap (λ n. length (items_from p.left.chain n d.tail_idx)) span,
          p.few,
          room,
        );
      }

  -- what the call returns and leaves
  pub record ListCompacted (worth : ℕ → ℕ → Bool) (c : ListCells) : Type 0 where
    pub left : ListCells
    pub holds :
        ListHolds laws.law fits
          (compact_list_if_needed hash config hr list_key worth)
          c
          (decided worth c.desc)
          left
    pub inv : ListInv left
    pub keys : keys_of (members left) ≡ keys_of (members c)
    pub values : (q : Bytes) → value_of (left.item q) ≡ value_of (c.item q)
    pub whole : decided worth c.desc ≡ true → NoHoles left.desc

  -- the run once the test holds
  compacts :
      (c : ListCells) (d : ListDesc)
      (p : RangeMoved laws fits (d.tail_idx - d.head_idx) d.head_idx d.tail_idx c)
      → ListHolds laws.law fits
          (move_in_range hash config hr
              (ph_of hash list_key)
              (d.tail_idx - d.head_idx)
              d.head_idx
              d.tail_idx
            >>= λ new_idx. store_list hash config hr list_key (moved_to d new_idx) >> pure true)
          c
          true
          (put_desc (kept (moved_to d (d.tail_idx + p.count))) p.left)
  compacts c d p = Holds-bind _ p.holds (
      Holds-bind _ (stores_list hr laws.law fits p.left (moved_to d (d.tail_idx + p.count)))
        (Holds-pure true _))

  compacted :
      (worth : ℕ → ℕ → Bool) (chain : ℕ → Option Bytes) (item : Bytes → Option (Bytes × ℕ))
      (d : ListDesc)
      → InRange chain d
      → SpanRoom (some d)
      → decided worth (some d) ≡ true
      → RangeMoved laws fits
          (d.tail_idx - d.head_idx)
          d.head_idx
          d.tail_idx
          (record { desc = some d; chain = chain; item = item })
      → ListCompacted worth (record { desc = some d; chain = chain; item = item })
  unfolding compact_list_if_needed contents
  compacted worth chain item d r room t p =
      let c : ListCells = record { desc = some d; chain = chain; item = item } in
      let d' = moved_to d (d.tail_idx + p.count) in
      let st = settles p.left.chain d' (moved_to-InRange c d r p room) in
      let more : d.tail_idx + p.count - d.tail_idx ≡ p.count = omega arith in
      record {
        left = put_desc (kept d') p.left;
        holds = Holds-told (sym t) (
            Holds-bind _ (fetches_list hr laws.law fits (some d) chain item r)
              (Holds-eq (rw (spans chain d r, holes chain d r, t) refl) (compacts c d p)));
        inv = record { range = st.inv; links = p.lead.links; short = p.short };
        keys =
            ap keys_of (st.listed ∙ ap (λ n. items_from p.left.chain n d.tail_idx) more) ∙ p.keys;
        values = p.values;
        whole = λ e. kept-NoHoles d' (omega (arith, p.few, room));
      }

  compact_some :
      (worth : ℕ → ℕ → Bool) (chain : ℕ → Option Bytes) (item : Bytes → Option (Bytes × ℕ))
      (d : ListDesc)
      → ListInv (record { desc = some d; chain = chain; item = item })
      → ItemsFit config item
      → SpanRoom (some d)
      → ListCompacted worth (record { desc = some d; chain = chain; item = item })
  unfolding compact_list_if_needed contents
  compact_some worth chain item d inv fit room =
      let c : ListCells = record { desc = some d; chain = chain; item = item } in
      let r = inv.range in
      elim (Bool-cases (decided worth (some d))) [
        | inl t ↦ compacted worth chain item d r room t (
            moves laws fits (d.tail_idx - d.head_idx) d.head_idx d.tail_idx c (ListInv-Leading inv)
              inv.short fit (omega (arith, r.ordered)) (omega (arith, room))
              (λ i a. r.outside i (inr a)))
        | inr f ↦ record {
          left = c;
          holds = Holds-told (sym f) (
              Holds-bind _ (fetches_list hr laws.law fits (some d) chain item r)
                (Holds-eq (rw (spans chain d r, holes chain d r, f) refl) (Holds-pure false c)));
          inv = inv;
          keys = refl;
          values = λ q. refl;
          whole = λ e. absurd (grind (arith, e, f));
        }
      ]

  compact_any :
      (worth : ℕ → ℕ → Bool) (o : Option ListDesc) (chain : ℕ → Option Bytes)
      (item : Bytes → Option (Bytes × ℕ))
      → ListInv (record { desc = o; chain = chain; item = item })
      → ItemsFit config item
      → SpanRoom o
      → ListCompacted worth (record { desc = o; chain = chain; item = item })
  unfolding compact_list_if_needed
  compact_any worth none chain item inv fit room = record {
    left = record { desc = none; chain = chain; item = item };
    holds =
        Holds-bind _ (fetches_list hr laws.law fits none chain item inv.range) (Holds-pure false _);
    inv = inv;
    keys = refl;
    values = λ q. refl;
    whole = λ e. tt;
  }
  compact_any worth (some d) chain item inv fit room = compact_some worth chain item d inv fit room

  -- Over a root that keeps the contract of a map and of `get_by_hash`, from a valid state that has
  -- room for the insertions that the call makes, on a list whose descriptor, chain and items agree,
  -- with as many indices left behind the tail as the list spans, its entries within the limits:
  -- `compact_list_if_needed` raises no error, returns whether its test holds of the span and the
  -- holes, and leaves a list with the same items in the same order, each with its value, which has
  -- no holes if the test holds; the descriptor, the chain and the items agree again, and no key but
  -- those of the list is changed.
  pub Holds-compact_list_if_needed :
      (worth : ℕ → ℕ → Bool) (c : ListCells)
      → ListInv c
      → ItemsFit config c.item
      → SpanRoom c.desc
      → ListCompacted worth c
  Holds-compact_list_if_needed worth c inv fit room =
      compact_any worth c.desc c.chain c.item inv fit room
