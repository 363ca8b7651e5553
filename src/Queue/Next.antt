-- ===== src/Queue/Next.antt =====
-- The iterator of a queue: it goes over what the queue holds, from either end, and changes nothing.
use candystore.Store.Holds.{Holds-bind, Holds-eq, Holds-pure}
use candystore.Base.{
  Bool, ℕ, zero, suc, ◌+◌, ◌-◌, ◌^◌, ◌<◌, ◌≤◌, ◌≡◌, refl, sym, ap, subst, ◌∙◌, Option, none, some,
  List, ◌++◌, inl, inr, Option-cases, true, false, ltb_of_lt, ltb_of_le, arith,
}
use candystore.Base.Bytes.{Bytes}
use candystore.Base.Outcome.{Exec, pure, ◌>>=◌}
use candystore.Hashing.{Hasher}
use candystore.Shard.Mmap.{InternalConfig}
use candystore.Store.{Root}
use candystore.Store.Raw.{View, IsMap}
use candystore.Queue.{QueuePos, head, tail}
use candystore.Queue.Cells.{Cells, Does}
use candystore.Queue.Calls.{Fits}
use candystore.Queue.Contents.{Item, one, items_from, items_from_snoc}
use native.Mathlib.Decide.{dec_lt}
use candystore.Queue.Ends.{Took, joined, joined-none, joined-some}
use candystore.Queue.Push.{placed}
use candystore.Queue.Walk.{Span, next_idx, next_item, seen_or_more}
use candystore.Queue.{make_queue_item_key}
use candystore.Queue.Calls.{Does-get_item}
use candystore.Store.{get_raw}

abbrev pub end_of : Bool → QueuePos
end_of true = head
end_of false = tail

-- the items of a range
abbrev pub spanned : (ℕ → Option Bytes) → Span → List Item
spanned item range = items_from item (range.1 - range.0) range.0

-- the index that is looked at, and the range behind it
pub record NextIdx (item : ℕ → Option Bytes) (fwd : Bool) (range : Span) : Type 0 where
  pub inside : (next_idx fwd range).0 < range.1
  pub shorter : suc ((next_idx fwd range).1.1 - (next_idx fwd range).1.0) ≡ range.1 - range.0
  pub top : (next_idx fwd range).1.1 ≤ range.1
  pub listed :
      spanned item range
      ≡ joined
          (end_of fwd)
          (next_idx fwd range).0
          (item (next_idx fwd range).0)
          (spanned item (next_idx fwd range).1)

pub next_lem :
    (item : ℕ → Option Bytes) (fwd : Bool) (range : Span)
    → range.0 < range.1
    → NextIdx item fwd range
unfolding next_idx items_from
next_lem item true (lo, hi) lt =
    let more : hi - lo ≡ suc (hi - (lo + 1)) = omega arith in
    record {
      inside = lt;
      shorter = sym more;
      top = omega arith;
      listed = ap (λ n. items_from item n lo) more;
    }
next_lem item false (lo, hi) lt =
    let more : hi - lo ≡ suc (hi - 1 - lo) = omega arith in
    let last : lo + (hi - 1 - lo) ≡ hi - 1 = omega arith in
    record {
      inside = omega arith;
      shorter = sym more;
      top = omega arith;
      listed =
          ap (λ n. items_from item n lo) more
          ∙ items_from_snoc item (hi - 1 - lo) lo
          ∙ ap (λ i. items_from item (hi - 1 - lo) lo ++ one i (item i)) last;
    }

-- a hole is passed, an item is taken off the end
module _ (item : ℕ → Option Bytes) (fwd : Bool) (range : Span) (p : NextIdx item fwd range) where
  pub spanned-hole :
      item (next_idx fwd range).0 ≡ none → spanned item range ≡ spanned item (next_idx fwd range).1
  spanned-hole e =
      p.listed
      ∙ ap (λ o. joined (end_of fwd) (next_idx fwd range).0 o (spanned item (next_idx fwd range).1))
          e
      ∙ joined-none (end_of fwd) (next_idx fwd range).0 (spanned item (next_idx fwd range).1)

  pub spanned-found :
      (x : Bytes)
      → item (next_idx fwd range).0 ≡ some x
      → spanned item range
        ≡ placed (end_of fwd) ((next_idx fwd range).0, x) (spanned item (next_idx fwd range).1)
  spanned-found x e =
      p.listed
      ∙ ap (λ o. joined (end_of fwd) (next_idx fwd range).0 o (spanned item (next_idx fwd range).1))
          e
      ∙ joined-some (end_of fwd) (next_idx fwd range).0 x (spanned item (next_idx fwd range).1)

module _ {S : Type 0} {hash : Hasher} {config : InternalConfig} {root : Root S} {v : View S}
    (law : IsMap hash config root v) {queue_key : Bytes} (fits : Fits config queue_key) where
  pub next_item_over :
      (fwd : Bool) (fuel : ℕ) (range : Span)
      → range.1 ≤ range.0
      → next_item hash config root queue_key fwd (suc fuel) range ≡ pure (none, range)
  unfolding next_item
  next_item_over fwd fuel range le = rw (ltb_of_le range.0 range.1 le, next_item) refl

  next_item_round :
      (fwd : Bool) (fuel : ℕ) (range : Span)
      → range.0 < range.1
      → next_item hash config root queue_key fwd (suc fuel) range ≡ (
          get_raw hash config root (make_queue_item_key queue_key (next_idx fwd range).0)
          >>= seen_or_more hash config root fwd range
              (next_item hash config root queue_key fwd fuel (next_idx fwd range).1))
  unfolding next_item
  next_item_round fwd fuel range lt = rw (ltb_of_lt range.0 range.1 lt, next_item) refl

  -- what the loop finds in a range, and the range behind it
  pub record Sees (fwd : Bool) (fuel : ℕ) (c : Cells) (range : Span) : Type 0 where
    pub out : Option Item
    pub rest : Span
    pub does :
        Does v queue_key (next_item hash config root queue_key fwd fuel range) c (out, rest) c
    pub top : rest.1 ≤ range.1
    pub took : Took (end_of fwd) (spanned c.item range) out (spanned c.item rest)

  goes_on :
      (fwd : Bool) (range : Span) {more : Exec S (Option Item × Span)} {c : Cells}
      {x : Option Item × Span} (o : Option Bytes)
      → o ≡ none
      → Does v queue_key more c x c
      → Does v queue_key (seen_or_more hash config root fwd range more o) c x c
  goes_on fwd range o e done = rw e done

  stops :
      (fwd : Bool) (range : Span) (more : Exec S (Option Item × Span)) {c : Cells}
      (o : Option Bytes) (x : Bytes)
      → o ≡ some x
      → Does v queue_key
          (seen_or_more hash config root fwd range more o)
          c
          (some ((next_idx fwd range).0, x), (next_idx fwd range).1)
          c
  stops fwd range more {c} o x e = rw e (Holds-pure _ c)

  pub sees :
      (fwd : Bool) (fuel : ℕ) (c : Cells) (range : Span)
      → range.1 ≤ 2 ^ 64
      → range.1 - range.0 < fuel
      → Sees fwd fuel c range
  unfolding items_from
  sees fwd zero c range word enough = absurd (omega arith)
  sees fwd (suc fuel) c range word enough = elim (dec_lt range.0 range.1) [
    | no over ↦
        let e : range.1 - range.0 ≡ 0 = omega arith in
        record {
          out = none;
          rest = range;
          does =
              Holds-eq (next_item_over fwd fuel range (omega arith)) (Holds-pure (none, range) c);
          top = omega arith;
          took = (ap (λ n. items_from c.item n range.0) e, ap (λ n. items_from c.item n range.0) e);
        }
    | yes lt ↦
        let p = next_lem c.item fwd range lt in
        elim (Option-cases (c.item (next_idx fwd range).0)) [
          | inl e ↦
              let f =
                sees fwd fuel c (next_idx fwd range).1 (omega (arith, p.top))
                  (omega (arith, p.shorter)) in
              record {
                out = f.out;
                rest = f.rest;
                does = Holds-eq (next_item_round fwd fuel range lt) (
                    Holds-bind _
                      (Does-get_item law fits c (next_idx fwd range).0 (omega (arith, p.inside)))
                      (goes_on fwd range (c.item (next_idx fwd range).0) e f.does));
                top = omega (arith, f.top, p.top);
                took =
                    subst (λ l. Took (end_of fwd) l f.out (spanned c.item f.rest))
                      (sym (spanned-hole c.item fwd range p e)) f.took;
              }
          | inr (x, e) ↦ record {
            out = some ((next_idx fwd range).0, x);
            rest = (next_idx fwd range).1;
            does = Holds-eq (next_item_round fwd fuel range lt) (
                Holds-bind _
                  (Does-get_item law fits c (next_idx fwd range).0 (omega (arith, p.inside)))
                  (stops fwd range _ (c.item (next_idx fwd range).0) x e));
            top = p.top;
            took = spanned-found c.item fwd range p x e;
          }
        ]
  ]
