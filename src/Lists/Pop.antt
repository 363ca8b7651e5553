-- ===== src/Lists/Pop.antt =====
-- `_owned_pop_list` at the head: the first item is taken off the list; holes are skipped.
pub mod Heads
use candystore.Base.{
  ℕ, zero, suc, ◌+◌, ◌-◌, ◌^◌, ◌<◌, ◌≤◌, ◌≡◌, refl, sym, ap, ◌∙◌, true, Option, none, some, [], ◌∷◌,
  update_self, update_ne, inl, inr, Option-cases, ltb_of_lt, ltb_of_le, arith,
}
use candystore.Base.Bytes.{Bytes, length}
use candystore.Base.Word.{wrapping_add}
use candystore.Base.Maps.{at_key}
use candystore.Base.Outcome.{Exec, pure, ◌>>=◌}
use candystore.Hashing.{Hasher}
use candystore.Shard.Mmap.{InternalConfig, KvPair}
use candystore.Store.Raw.{View}
use candystore.Store.Holds.{Holds-pure, Holds-bind, Holds-eq, Holds-told}
use candystore.Queue.{head}
use candystore.Queue.Contents.{
  Item, items_from, items_from-update, length-items_from, contents, InRange,
}
use candystore.Queue.Ends.{listing, without, Took}
use candystore.Queue.Settled.{kept, settles}
use candystore.Queue.Walk.{Span, next_idx}
use candystore.Lists.{ListDesc, HashRoot, get_from_list_at_index}
use candystore.Lists.Walk.{
  truncated, popped_list, pop_found, pop_or_next, pop_in_range, owned_pop_list,
}
use candystore.Lists.Cells.{ListCells, put_desc, put_chain, put_item, ph_of, item_hash}
use candystore.Lists.Calls.{ListFits, ListHolds, holds_remove_chain, holds_remove_item}
use candystore.Lists.Inv.{ListInv, members, Linked-less, Short-less}
use candystore.Lists.Remove.{stores_list}
use candystore.Lists.Peek.{fetches_list}
use candystore.Lists.Next.{shown_in, truncated-full}
use candystore.Lists.Index.{IsHashMap, full, Holds-get_from_list_at_index}
use native.Mathlib.Decide.{dec_lt, ℕ_discrete}
use candystore.Lists.Pop.Heads.{Headed, none_before, heads}

-- the items once one was taken off
abbrev pub item_gone : Option Item → (Bytes → Option (Bytes × ℕ)) → Bytes → Option (Bytes × ℕ)
item_gone none item = item
item_gone (some (i, k)) item = at_key k none item

module _ {S : Type 0} {hash : Hasher} {config : InternalConfig} {hr : HashRoot S} {v : View S}
    (laws : IsHashMap hash config hr v) {list_key : Bytes} (fits : ListFits config list_key) where
  -- what a run of popping returns and leaves
  pub record ListPops (m : Exec S (Option KvPair)) (c : ListCells) : Type 0 where
    pub out : Option Item
    pub left : ListCells
    pub holds : ListHolds laws.law fits m c (shown_in c out) left
    pub inv : ListInv left
    pub took : Took head (members c) out (members left)
    pub item : (q : Bytes) → left.item q ≡ item_gone out c.item q

  pop_over :
      (fuel : ℕ) (d : ListDesc) (range : Span)
      → range.1 ≤ range.0
      → pop_in_range hash config hr list_key true d (suc fuel) range ≡ pure none
  unfolding pop_in_range
  pop_over fuel d range le = rw (ltb_of_le range.0 range.1 le, pop_in_range) refl

  pop_round :
      (fuel : ℕ) (d : ListDesc) (lo hi : ℕ)
      → lo < hi
      → pop_in_range hash config hr list_key true d (suc fuel) (lo, hi) ≡ (
          get_from_list_at_index hash config hr (ph_of hash list_key) lo
          >>= pop_or_next hash config hr list_key true d lo
              (pop_in_range hash config hr list_key true d fuel (lo + 1, hi)))
  unfolding pop_in_range next_idx
  pop_round fuel d lo hi lt = rw (ltb_of_lt lo hi lt, pop_in_range) refl

  pops_found :
      (chain : ℕ → Option Bytes) (item : Bytes → Option (Bytes × ℕ)) (d : ListDesc) (lo : ℕ)
      (k val : Bytes)
      → ListInv (record { desc = some d; chain = chain; item = item })
      → lo < d.tail_idx
      → Headed chain d lo k
      → item k ≡ some (val, lo)
      → ListPops
          (pop_found hash config hr list_key true d lo (full hash list_key k val lo))
          (record { desc = some d; chain = chain; item = item })
  unfolding pop_found contents
  pops_found chain item d lo k val inv lt h e =
      let c : ListCells = record { desc = some d; chain = chain; item = item } in
      let d' = popped_list true lo d in
      let c' = put_desc (kept d') c in
      let word : lo < 2 ^ 64 = omega (arith, inv.range.words) in
      let st = settles (without chain lo) d' h.inv in
      record {
        out = some (lo, k);
        left = put_item k none (put_chain lo none c');
        holds =
            Holds-told
              (ap some (truncated-full hash list_key k val lo (inv.short k val lo e))
                ∙ sym (rw e refl))
              (Holds-bind _ (stores_list hr laws.law fits c d') (
                Holds-bind _ (holds_remove_chain laws.law fits c' lo word) (
                  Holds-bind _ (holds_remove_item laws.law fits (put_chain lo none c') k)
                    (Holds-pure (some (truncated (full hash list_key k val lo))) _))));
        inv = record {
          range = st.inv;
          links = Linked-less inv.links lo k val e;
          short = Short-less inv.short k;
        };
        took = h.listed ∙ ap (λ l. (lo, k) ∷ l) (sym st.listed);
        item = λ q. refl;
      }

  pops :
      (fuel : ℕ) (chain : ℕ → Option Bytes) (item : Bytes → Option (Bytes × ℕ)) (d : ListDesc)
      (lo : ℕ)
      → ListInv (record { desc = some d; chain = chain; item = item })
      → d.head_idx ≤ lo
      → ((i : ℕ) → i < lo → chain i ≡ none)
      → d.tail_idx - lo < fuel
      → ListPops
          (pop_in_range hash config hr list_key true d fuel (lo, d.tail_idx))
          (record { desc = some d; chain = chain; item = item })
  unfolding contents
  pops zero chain item d lo inv ge free enough = absurd (omega arith)
  pops (suc fuel) chain item d lo inv ge free enough =
      let c : ListCells = record { desc = some d; chain = chain; item = item } in
      elim (dec_lt lo d.tail_idx) [
        | no over ↦
            let nothing : listing chain d ≡ [] =
              none_before chain (d.tail_idx - d.head_idx) d.head_idx
                (λ i l. free i (omega (arith, inv.range.ordered))) in
            record {
              out = none;
              left = c;
              holds = Holds-eq (pop_over fuel d (lo, d.tail_idx) (omega arith)) (Holds-pure none c);
              inv = inv;
              took = (nothing, nothing);
              item = λ q. refl;
            }
        | yes lt ↦
            let word : lo < 2 ^ 64 = omega (arith, inv.range.words) in
            elim (Option-cases (chain lo)) [
              | inl e ↦
                  let p =
                    pops fuel chain item d (lo + 1) inv (omega arith) (λ i l. further e i l)
                      (omega arith) in
                  record {
                    out = p.out;
                    left = p.left;
                    holds = Holds-eq (pop_round fuel d lo d.tail_idx lt) (
                        Holds-bind _
                          (Holds-told {y = none} (rw e refl)
                            (Holds-get_from_list_at_index laws fits c lo word inv))
                          p.holds);
                    inv = p.inv;
                    took = p.took;
                    item = p.item;
                  }
              | inr (k, e) ↦
                  let there = inv.links.leads lo k e in
                  let p =
                    pops_found chain item d lo k there.0 inv lt
                      (heads chain d lo k inv.range ge lt free e) there.1 in
                  record {
                    out = p.out;
                    left = p.left;
                    holds = Holds-eq (pop_round fuel d lo d.tail_idx lt) (
                        Holds-bind _
                          (Holds-told
                            {y = some (item_hash hash list_key k, full hash list_key k there.0 lo)}
                            (rw (e, there.1) refl)
                            (Holds-get_from_list_at_index laws fits c lo word inv))
                          p.holds);
                    inv = p.inv;
                    took = p.took;
                    item = p.item;
                  }
            ]
      ]
    where
      further : chain lo ≡ none → (i : ℕ) → i < lo + 1 → chain i ≡ none
      further e i l = elim (ℕ_discrete i lo) [
        | yes same ↦ ap chain same ∙ e
        | no ne ↦ free i (omega arith)
      ]

  pop_any :
      (o : Option ListDesc) (chain : ℕ → Option Bytes) (item : Bytes → Option (Bytes × ℕ))
      → ListInv (record { desc = o; chain = chain; item = item })
      → ListPops
          (owned_pop_list hash config hr list_key true)
          (record { desc = o; chain = chain; item = item })
  unfolding owned_pop_list contents
  pop_any none chain item inv =
      let c : ListCells = record { desc = none; chain = chain; item = item } in
      record {
        out = none;
        left = c;
        holds =
            Holds-bind _ (fetches_list hr laws.law fits none chain item inv.range)
              (Holds-pure none c);
        inv = inv;
        took = (refl, refl);
        item = λ q. refl;
      }
  pop_any (some d) chain item inv =
      let c : ListCells = record { desc = some d; chain = chain; item = item } in
      let p =
        pops (d.tail_idx - d.head_idx + 1) chain item d d.head_idx inv (omega arith)
          (λ i l. inv.range.outside i (inl l)) (omega arith) in
      record {
        out = p.out;
        left = p.left;
        holds = Holds-bind _ (fetches_list hr laws.law fits (some d) chain item inv.range) p.holds;
        inv = p.inv;
        took = p.took;
        item = p.item;
      }

  -- Over a root that keeps the contract of a map and of `get_by_hash`, from a valid state that has
  -- room for the insertions that the call makes, on a list whose descriptor, chain and items agree,
  -- within the limits: a pop at the head raises no error, skips the holes, takes the first item off
  -- the list and returns its key and value, or returns nothing if the list holds nothing; the other
  -- items stay as they were, the descriptor, the chain and the items agree again, and no key but
  -- those of the list is changed.
  pub Holds-owned_pop_list :
      (c : ListCells) → ListInv c → ListPops (owned_pop_list hash config hr list_key true) c
  Holds-owned_pop_list c inv = pop_any c.desc c.chain c.item inv
