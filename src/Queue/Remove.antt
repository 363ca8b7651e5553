-- ===== src/Queue/Remove.antt =====
-- `remove_from_queue`: the item at an index is taken out, and the range shrinks at its ends.
use candystore.Store.Holds.{Holds-bind, Holds-pure}
use candystore.Base.{
  ℕ, ◌-◌, ◌^◌, ◌<◌, ◌≡◌, refl, sym, ap, ◌∙◌, Option, none, some, update_self, update_ne, inl, inr,
  Option-cases,
}
use candystore.Base.Bytes.{Bytes, length}
use candystore.Hashing.{Hasher}
use candystore.Shard.Mmap.{InternalConfig}
use candystore.Store.{Root}
use candystore.Store.Raw.{View, IsMap}
use candystore.Queue.{Queue}
use candystore.Queue.Cells.{Cells, put_item, put_desc, Does}
use candystore.Queue.Calls.{Fits, Does-from_bytes, Does-get_desc, Does-remove_item}
use candystore.Queue.Contents.{items_from_congr, contents, QueueInv, DescInv, InRange-IsWords}
use native.Mathlib.Decide.{ℕ_discrete}
use candystore.Queue.{drop_at, shrink_queue, remove_from_queue}
use candystore.Queue.Settled.{kept, stores}
use candystore.Queue.Drop.{
  dropped, cleared, cleared-none, items_from-cleared, NotOnly, drops, clash,
}

module _ {S : Type 0} {hash : Hasher} {config : InternalConfig} {root : Root S} {v : View S}
    (law : IsMap hash config root v) {queue_key : Bytes} (fits : Fits config queue_key) where
  -- what removing an index returns and leaves
  pub record Removed (idx : ℕ) (c : Cells) : Type 0 where
    pub left : Cells
    pub does :
        Does v queue_key (remove_from_queue hash config root queue_key idx) c (c.item idx) left
    pub inv : QueueInv left
    pub listed : contents left ≡ dropped idx (contents c)

  same_inv :
      (idx : ℕ) (o : Option Queue) (item : ℕ → Option Bytes)
      → item idx ≡ none
      → DescInv item o
      → DescInv (cleared item idx) o
  same_inv idx none item e free = λ i. cleared-none item idx (inr (free i))
  same_inv idx (some d) item e inv =
      let same : (i : ℕ) → item i ≡ cleared item idx i = λ i. elim (ℕ_discrete idx i) [
        | yes q ↦ ap item (sym q) ∙ e ∙ sym (update_self item idx none) ∙ ap (cleared item idx) q
        | no ne ↦ sym (update_ne item idx i none ne)
      ] in
      record {
        ordered = inv.ordered;
        words = inv.words;
        outside = λ i out. sym (same i) ∙ inv.outside i out;
        counted =
            inv.counted
            ∙ ap length (
                items_from_congr item (cleared item idx) (d.tail_idx - d.head_idx) d.head_idx
                  (λ i l h. same i));
      }

  contents-cleared :
      (idx : ℕ) (o : Option Queue) (item : ℕ → Option Bytes)
      → contents (record { desc = o; item = cleared item idx })
        ≡ dropped idx (contents (record { desc = o; item = item }))
  unfolding contents dropped
  contents-cleared idx none item = refl
  contents-cleared idx (some d) item =
      items_from-cleared item idx (d.tail_idx - d.head_idx) d.head_idx

  remove_none :
      (idx : ℕ) (o : Option Queue) (item : ℕ → Option Bytes)
      → idx < 2 ^ 64
      → DescInv item o
      → item idx ≡ none
      → Removed idx (record { desc = o; item = item })
  unfolding remove_from_queue
  remove_none idx o item word inv e =
      let c : Cells = record { desc = o; item = item } in
      record {
        left = put_item idx none c;
        does =
            Holds-bind _ (Does-remove_item law fits c idx word)
              (rw e (Holds-pure none (put_item idx none c)));
        inv = same_inv idx o item e inv;
        listed = contents-cleared idx o item;
      }

  remove_some :
      (idx : ℕ) (o : Option Queue) (item : ℕ → Option Bytes) (x : Bytes)
      → idx < 2 ^ 64
      → DescInv item o
      → NotOnly idx o
      → item idx ≡ some x
      → Removed idx (record { desc = o; item = item })
  unfolding remove_from_queue shrink_queue contents
  remove_some idx none item x word free other e = absurd (clash (free idx) e)
  remove_some idx (some d) item x word inv other e =
      let c : Cells = record { desc = some d; item = item } in
      let c' : Cells = put_item idx none c in
      let p = drops item idx d x inv e other in
      let st = stores law fits c' (drop_at idx d) p.inv in
      record {
        left = put_desc (kept (drop_at idx d)) c';
        does = Holds-bind _ (Does-remove_item law fits c idx word) (
            rw e (
              Holds-bind _ (Does-get_desc law fits c') (
                Holds-bind _
                  (Holds-bind _ (Does-from_bytes v queue_key d c' (InRange-IsWords inv)) st.does)
                  (Holds-pure (some x) _))));
        inv = st.inv;
        listed = st.listed ∙ p.listed;
      }

  -- Over a root that keeps the contract of a map, from a valid state that has room for the
  -- insertions that the call makes, on a queue whose descriptor and items agree, within the limits,
  -- at an index that is not the only one of the queue's range: `remove_from_queue` raises no error,
  -- returns the item that has this index, or nothing if there is none, and takes that item out of
  -- the queue, the others staying in their order; the descriptor and the items agree again, and no
  -- other key is changed.
  pub Does-remove_from_queue :
      (idx : ℕ) (c : Cells) → idx < 2 ^ 64 → QueueInv c → NotOnly idx c.desc → Removed idx c
  Does-remove_from_queue idx c word inv other = elim (Option-cases (c.item idx)) [
    | inl e ↦ remove_none idx c.desc c.item word inv e
    | inr (x, e) ↦ remove_some idx c.desc c.item x word inv other e
  ]
