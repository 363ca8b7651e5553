-- ===== src/Queue/Settled.antt =====
-- A changed descriptor is written back, or removed with the last index.
use candystore.Store.Holds.{Holds-bind, Holds-pure}
use candystore.Base.{
  ℕ, inl, inr, Bool-cases, if◌then◌else◌, ◌-◌, ◌≡◌, refl, sym, ap, Option, none, some, true, false,
  ==_iff, ==_of_ne, arith,
}
use candystore.Base.Bytes.{Bytes}
use candystore.Hashing.{Hasher}
use candystore.Shard.Mmap.{InternalConfig}
use candystore.Store.{Root}
use candystore.Store.Raw.{View, IsMap}
use candystore.Queue.{Queue, store_queue, is_empty}
use candystore.Queue.Cells.{Cells, put_desc, Does}
use candystore.Queue.Calls.{Fits, Does-set_desc, Does-remove_desc}
use candystore.Queue.Contents.{items_from, contents, InRange, QueueInv, DescInv}
use native.Mathlib.Decide.{ℕ_discrete}
use candystore.Queue.Ends.{listing}

-- the descriptor that is left
abbrev pub kept : Queue → Option Queue
kept d = if is_empty d then none else some d

-- the descriptor that is left agrees with the items
pub record Settles (item : ℕ → Option Bytes) (d : Queue) : Type 0 where
  pub inv : DescInv item (kept d)
  pub listed : contents (record { desc = kept d; item = item }) ≡ listing item d

pub settles : (item : ℕ → Option Bytes) (d : Queue) → InRange item d → Settles item d
unfolding contents items_from
settles item d inv = elim (ℕ_discrete d.head_idx d.tail_idx) [
  | yes e ↦
      let empty : is_empty d ≡ true = (==_iff d.head_idx d.tail_idx).1 e in
      let span : d.tail_idx - d.head_idx ≡ 0 = omega arith in
      record {
        inv = rw empty (λ i. inv.outside i (omega (arith, e)));
        listed = rw empty (sym (ap (λ n. items_from item n d.head_idx) span));
      }
  | no ne ↦
      let more : is_empty d ≡ false = ==_of_ne d.head_idx d.tail_idx ne in
      record { inv = rw more inv; listed = rw more refl }
]

module _ {S : Type 0} {hash : Hasher} {config : InternalConfig} {root : Root S} {v : View S}
    (law : IsMap hash config root v) {queue_key : Bytes} (fits : Fits config queue_key) where
  pub record Stores (c : Cells) (d : Queue) : Type 0 where
    pub does :
        Does v queue_key (store_queue hash config root queue_key d) c tt (put_desc (kept d) c)
    pub inv : QueueInv (put_desc (kept d) c)
    pub listed : contents (put_desc (kept d) c) ≡ listing c.item d

  writes :
      (c : Cells) (d : Queue)
      → Does v queue_key (store_queue hash config root queue_key d) c tt (put_desc (kept d) c)
  unfolding store_queue
  writes c d = elim (Bool-cases (is_empty d)) [
    | inl empty ↦ rw empty (Holds-bind _ (Does-remove_desc law fits c) (Holds-pure tt _))
    | inr more ↦ rw more (Holds-bind _ (Does-set_desc law fits c d) (Holds-pure tt _))
  ]

  pub stores : (c : Cells) (d : Queue) → InRange c.item d → Stores c d
  stores c d inv =
      let st = settles c.item d inv in
      record { does = writes c d; inv = st.inv; listed = st.listed }
