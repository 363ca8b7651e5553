-- ===== src/Queue/Discard.antt =====
-- `discard_queue`: the descriptor and every item are removed.
use candystore.Store.Holds.{Holds-bind, Holds-pure}
use candystore.Base.{
  Bool, ℕ, zero, suc, ◌+◌, ◌-◌, ◌^◌, ◌<◌, ◌≤◌, ◌≡◌, sym, ap, ◌∙◌, Option, none, some, update,
  update_self, update_ne, inl, inr, ◌⊎◌, true, false, arith,
}
use candystore.Base.Bytes.{Bytes}
use candystore.Hashing.{Hasher}
use candystore.Shard.Mmap.{InternalConfig}
use candystore.Store.{Root}
use candystore.Store.Raw.{View, IsMap}
use candystore.Queue.{Queue}
use candystore.Queue.Cells.{Cells, put_item, Does}
use candystore.Queue.Calls.{
  Fits, Does-from_bytes, Does-get_desc, Does-remove_desc, Does-remove_item,
}
use candystore.Queue.Contents.{QueueInv, DescInv, InRange-IsWords}
use native.Mathlib.Decide.{ℕ_discrete, dec_lt}
use candystore.Queue.{discard_items, discard_queue}

abbrev pub is_some : Option Queue → Bool
is_some none = false
is_some (some d) = true

module _ {S : Type 0} {hash : Hasher} {config : InternalConfig} {root : Root S} {v : View S}
    (law : IsMap hash config root v) {queue_key : Bytes} (fits : Fits config queue_key) where
  record Cleared (n lo : ℕ) (c : Cells) : Type 0 where
    item : ℕ → Option Bytes
    does :
        Does v queue_key
          (discard_items hash config root queue_key n lo)
          c
          tt
          (record c { item = item })
    gone : (i : ℕ) → (c.item i ≡ none) ⊎ (lo ≤ i × i < lo + n) → item i ≡ none

  clears : (n lo : ℕ) (c : Cells) → lo + n ≤ 2 ^ 64 → Cleared n lo c
  unfolding discard_items
  clears zero lo c word = record { item = c.item; does = Holds-pure tt c; gone = λ i h. still h }
    where
      still : {i : ℕ} → (c.item i ≡ none) ⊎ (lo ≤ i × i < lo + 0) → c.item i ≡ none
      still (inl e) = e
      still (inr (l, h)) = absurd (omega arith)
  clears (suc n) lo c word =
      let f = clears n (lo + 1) (put_item lo none c) (omega arith) in
      record {
        item = f.item;
        does = Holds-bind _ (Does-remove_item law fits c lo (omega arith)) f.does;
        gone = λ i h. f.gone i (left i h);
      }
    where
      left :
          (i : ℕ)
          → (c.item i ≡ none) ⊎ (lo ≤ i × i < lo + suc n)
          → (update c.item lo none i ≡ none) ⊎ (lo + 1 ≤ i × i < lo + 1 + n)
      left i h = elim (ℕ_discrete lo i) [
        | yes e ↦ inl (ap (update c.item lo none) (sym e) ∙ update_self c.item lo none)
        | no ne ↦ elim h [
          | inl e ↦ inl (update_ne c.item lo i none ne ∙ e)
          | inr lh ↦ inr (omega (arith, lh.0, ne), omega (arith, lh.1))
        ]
      ]

  -- what discarding a queue returns and leaves
  pub record Discarded (c : Cells) : Type 0 where
    pub item : ℕ → Option Bytes
    pub does :
        Does v queue_key
          (discard_queue hash config root queue_key)
          c
          (is_some c.desc)
          (record { desc = none; item = item })
    pub gone : (i : ℕ) → item i ≡ none

  discard_any :
      (o : Option Queue) (item : ℕ → Option Bytes)
      → DescInv item o
      → Discarded (record { desc = o; item = item })
  unfolding discard_queue
  discard_any none item free = record {
    item = item;
    does =
        Holds-bind _ (Does-get_desc law fits (record { desc = none; item = item }))
          (Holds-pure false _);
    gone = free;
  }
  discard_any (some d) item inv =
      let c : Cells = record { desc = some d; item = item } in
      let f =
        clears (d.tail_idx - d.head_idx) d.head_idx c (omega (arith, inv.ordered, inv.words)) in
      record {
        item = f.item;
        does = Holds-bind _ (Does-get_desc law fits c) (
            Holds-bind _ (Does-from_bytes v queue_key d c (InRange-IsWords inv)) (
              Holds-bind _ f.does (
                Holds-bind _ (Does-remove_desc law fits (record c { item = f.item }))
                  (Holds-pure true _))));
        gone = λ i. f.gone i (elim (dec_lt i d.head_idx) [
          | yes lt ↦ inl (inv.outside i (inl lt))
          | no ge ↦ elim (dec_lt i d.tail_idx) [
            | yes lt ↦ inr (omega arith, omega (arith, inv.ordered))
            | no ge' ↦ inl (inv.outside i (inr (omega arith)))
          ]
        ]);
      }

  -- Over a root that keeps the contract of a map, from a valid state that has room for the
  -- insertions that the call makes, on a queue whose descriptor and items agree, within the limits:
  -- `discard_queue` raises no error, returns whether the queue had a descriptor, and leaves neither
  -- a descriptor nor an item under any index; no other key is changed.
  pub Does-discard_queue : (c : Cells) → QueueInv c → Discarded c
  Does-discard_queue c inv = discard_any c.desc c.item inv
