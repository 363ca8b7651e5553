-- ===== src/Lists/Next.antt =====
-- The iterator of a list: it goes over what the list holds, from either end, and changes nothing.
use candystore.Base.{
  ℕ, zero, suc, ◌+◌, ◌-◌, ◌^◌, ◌<◌, ◌≤◌, ◌≡◌, refl, sym, ap, ◌∙◌, subst, Bool, Option, none, some,
  inl, inr, Option-cases, ltb_of_lt, ltb_of_le, arith,
}
use candystore.Base.Bytes.{Bytes, length, take-append}
use candystore.Base.Word.{wrapping_sub}
use candystore.Base.Outcome.{Exec, pure, ◌>>=◌}
use candystore.Hashing.{Hasher, PartedHash}
use candystore.Shard.Mmap.{InternalConfig, KvPair}
use candystore.Store.Raw.{View}
use candystore.Store.Holds.{Holds-pure, Holds-bind, Holds-eq, Holds-told}
use candystore.Queue.Contents.{Item, items_from}
use candystore.Queue.Ends.{Took}
use candystore.Queue.Next.{end_of, spanned, next_lem, spanned-hole, spanned-found}
use candystore.Queue.Walk.{Span, next_idx}
use candystore.Lists.{HashRoot, make_item_key, item_suffix, get_from_list_at_index}
use candystore.Lists.Walk.{truncated, item_or_next, next_in_list}
use candystore.Lists.Cells.{ListCells, ph_of, item_hash}
use candystore.Lists.Calls.{ListFits, ListHolds}
use candystore.Lists.Keys.{length-item_key}
use candystore.Lists.Inv.{ListInv}
use candystore.Lists.Stored.{without_index-stored}
use candystore.Lists.Index.{IsHashMap, full, found_at, Holds-get_from_list_at_index}
use mathlib.Core.Path.{ap₂}
use native.Mathlib.Decide.{dec_lt}

abbrev pair_of : Bytes → Option (Bytes × ℕ) → Option KvPair
pair_of k none = none
pair_of k (some (val, i)) = some (k, val)

-- an item as its key and value
abbrev pub shown_in : ListCells → Option Item → Option KvPair
shown_in c none = none
shown_in c (some (i, k)) = pair_of k (c.item k)

pub truncated-full :
    (hash : Hasher) (list_key k val : Bytes) (i : ℕ)
    → length k + length val + 17 < 2 ^ 64
    → truncated (full hash list_key k val i) ≡ (k, val)
truncated-full hash list_key k val i short =
    let ph = ph_of hash list_key in
    ap₂ (λ a b. (a, b))
      (take-append (wrapping_sub (length (make_item_key ph k)) 9) k (item_suffix ph)
        (omega (arith, length-item_key ph k, short)))
      (without_index-stored val i (omega (arith, short)))

module _ {S : Type 0} {hash : Hasher} {config : InternalConfig} {hr : HashRoot S} {v : View S}
    (laws : IsHashMap hash config hr v) {list_key : Bytes} (fits : ListFits config list_key) where
  next_in_list_over :
      (fwd : Bool) (fuel : ℕ) (range : Span)
      → range.1 ≤ range.0
      → next_in_list hash config hr (ph_of hash list_key) fwd (suc fuel) range ≡ pure (none, range)
  unfolding next_in_list
  next_in_list_over fwd fuel range le = rw (ltb_of_le range.0 range.1 le, next_in_list) refl

  next_in_list_round :
      (fwd : Bool) (fuel : ℕ) (range : Span)
      → range.0 < range.1
      → next_in_list hash config hr (ph_of hash list_key) fwd (suc fuel) range ≡ (
          get_from_list_at_index hash config hr (ph_of hash list_key) (next_idx fwd range).0
          >>= item_or_next hash config hr fwd range
              (next_in_list hash config hr (ph_of hash list_key) fwd fuel (next_idx fwd range).1))
  unfolding next_in_list
  next_in_list_round fwd fuel range lt = rw (ltb_of_lt range.0 range.1 lt, next_in_list) refl

  -- what the loop finds in a range, and the range behind it
  pub record ListSees (fwd : Bool) (fuel : ℕ) (c : ListCells) (range : Span) : Type 0 where
    pub out : Option Item
    pub rest : Span
    pub holds :
        ListHolds laws.law fits
          (next_in_list hash config hr (ph_of hash list_key) fwd fuel range)
          c
          (shown_in c out, rest)
          c
    pub top : rest.1 ≤ range.1
    pub took : Took (end_of fwd) (spanned c.chain range) out (spanned c.chain rest)

  looks :
      (fwd : Bool) (range : Span) (more : Exec S (Option KvPair × Span)) (c : ListCells)
      (o : Option (PartedHash × KvPair)) {x : Option KvPair × Span}
      → ListInv c
      → (next_idx fwd range).0 < 2 ^ 64
      → found_at hash list_key c (next_idx fwd range).0 ≡ o
      → ListHolds laws.law fits (item_or_next hash config hr fwd range more o) c x c
      → ListHolds laws.law fits {A = Option KvPair × Span}
          (get_from_list_at_index hash config hr (ph_of hash list_key) (next_idx fwd range).0
            >>= item_or_next hash config hr fwd range more)
          c
          x
          c
  looks fwd range more c o inv word e done =
      Holds-bind _
        (Holds-told e (Holds-get_from_list_at_index laws fits c (next_idx fwd range).0 word inv))
        done

  pub list_sees :
      (fwd : Bool) (fuel : ℕ) (c : ListCells) (range : Span)
      → ListInv c
      → range.1 ≤ 2 ^ 64
      → range.1 - range.0 < fuel
      → ListSees fwd fuel c range
  unfolding items_from
  list_sees fwd zero c range inv word enough = absurd (omega arith)
  list_sees fwd (suc fuel) c range inv word enough = elim (dec_lt range.0 range.1) [
    | no over ↦
        let e : range.1 - range.0 ≡ 0 = omega arith in
        record {
          out = none;
          rest = range;
          holds =
              Holds-eq (next_in_list_over fwd fuel range (omega arith))
                (Holds-pure (none, range) c);
          top = omega arith;
          took =
              (ap (λ n. items_from c.chain n range.0) e, ap (λ n. items_from c.chain n range.0) e);
        }
    | yes lt ↦
        let p = next_lem c.chain fwd range lt in
        elim (Option-cases (c.chain (next_idx fwd range).0)) [
          | inl e ↦
              let f =
                list_sees fwd fuel c (next_idx fwd range).1 inv (omega (arith, p.top))
                  (omega (arith, p.shorter)) in
              record {
                out = f.out;
                rest = f.rest;
                holds =
                    Holds-eq (next_in_list_round fwd fuel range lt)
                      (looks fwd range _ c none inv (omega (arith, p.inside)) (rw e refl) f.holds);
                top = omega (arith, f.top, p.top);
                took =
                    subst (λ l. Took (end_of fwd) l f.out (spanned c.chain f.rest))
                      (sym (spanned-hole c.chain fwd range p e)) f.took;
              }
          | inr (k, e) ↦
              let there = inv.links.leads (next_idx fwd range).0 k e in
              record {
                out = some ((next_idx fwd range).0, k);
                rest = (next_idx fwd range).1;
                holds = Holds-eq (next_in_list_round fwd fuel range lt) (
                    looks fwd range _ c
                      (some (
                        item_hash hash list_key k,
                        full hash list_key k there.0 (next_idx fwd range).0,
                      ))
                      inv (omega (arith, p.inside)) (rw (e, there.1) refl)
                      (Holds-told
                        (ap (λ o. (o, (next_idx fwd range).1))
                          (shows c k there.0 _ there.1 (inv.short k there.0 _ there.1)))
                        (Holds-pure _ c)));
                top = p.top;
                took = spanned-found c.chain fwd range p k e;
              }
        ]
  ]
    where
      shows :
          (c : ListCells) (k val : Bytes) (i : ℕ)
          → c.item k ≡ some (val, i)
          → length k + length val + 17 < 2 ^ 64
          → some (truncated (full hash list_key k val i)) ≡ pair_of k (c.item k)
      shows c k val i e short =
          ap some (truncated-full hash list_key k val i short) ∙ ap (pair_of k) (sym e)
