-- ===== src/Queue/Cells.antt =====
-- A queue as its descriptor and its items, apart from the bytes that stand for them, and what the
-- store's calls on its keys do there.
use candystore.Base.{
  ℕ, ◌^◌, ◌<◌, ◌≡◌, sym, ap, ◌∙◌, Option, none, some, update, update_self, update_ne,
}
use candystore.Base.Bytes.{Bytes}
use candystore.Base.Maps.{Map, put, put_self, put_ne}
use candystore.Base.Outcome.{Exec}
use candystore.Store.Raw.{View}
use candystore.Store.Holds.{Part, Holds}
use candystore.Queue.{Queue, make_queue_key, make_queue_item_key, bytes_of_queue}
use candystore.Queue.Keys.{item_key_injective, item_key_ne}
use native.Mathlib.Decide.{ℕ_discrete}

pub record Cells : Type 0 where
  pub desc : Option Queue
  pub item : ℕ → Option Bytes

abbrev pub encoded : Option Queue → Option Bytes
encoded none = none
encoded (some d) = some (bytes_of_queue d)

abbrev pub put_item : ℕ → Option Bytes → Cells → Cells
put_item i o c = record c { item = update c.item i o }

abbrev pub put_desc : Option Queue → Cells → Cells
put_desc d c = record c { desc = d }

-- the map holds the queue
pub record Rep (queue_key : Bytes) (f : Map) (c : Cells) : Type 0 where
  pub desc : f (make_queue_key queue_key) ≡ encoded c.desc
  pub items : (i : ℕ) → i < 2 ^ 64 → f (make_queue_item_key queue_key i) ≡ c.item i

module _ (queue_key : Bytes) {f : Map} {c : Cells} (r : Rep queue_key f c) where
  pub Rep-put_desc :
      (d : Option Queue)
      → Rep queue_key (put (make_queue_key queue_key) (encoded d) f) (put_desc d c)
  Rep-put_desc d = record {
    desc = put_self (make_queue_key queue_key) (encoded d) f;
    items = λ i lt.
        put_ne (make_queue_key queue_key) (make_queue_item_key queue_key i) (encoded d) f
          (item_key_ne queue_key i)
        ∙ r.items i lt;
  }

  pub Rep-put_item :
      (i : ℕ) (o : Option Bytes)
      → i < 2 ^ 64
      → Rep queue_key (put (make_queue_item_key queue_key i) o f) (put_item i o c)
  Rep-put_item i o hi = record {
    desc =
        put_ne (make_queue_item_key queue_key i) (make_queue_key queue_key) o f
          (λ e. item_key_ne queue_key i (sym e))
        ∙ r.desc;
    items = λ j hj. elim (ℕ_discrete i j) [
      | yes e ↦
          ap (λ k. put (make_queue_item_key queue_key i) o f (make_queue_item_key queue_key k))
            (sym e)
          ∙ put_self (make_queue_item_key queue_key i) o f
          ∙ sym (update_self c.item i o)
          ∙ ap (update c.item i o) e
      | no ne ↦
          put_ne (make_queue_item_key queue_key i) (make_queue_item_key queue_key j) o f
            (λ e. ne (sym (item_key_injective queue_key j i hj hi e)))
          ∙ r.items j hj
          ∙ sym (update_ne c.item i j o ne)
    ];
  }

pub data IsQueueKey (queue_key : Bytes) : Bytes → Type 0 where
  is_desc : IsQueueKey queue_key (make_queue_key queue_key)
  is_item : (i : ℕ) → IsQueueKey queue_key (make_queue_item_key queue_key i)

abbrev pub queue_part : Bytes → Part Cells
queue_part queue_key = record {
  Rep = Rep queue_key;
  Mine = IsQueueKey queue_key;
  congr = λ f g c same r. record {
    desc = same (make_queue_key queue_key) ∙ r.desc;
    items = λ i lt. same (make_queue_item_key queue_key i) ∙ r.items i lt;
  };
}

-- what a call does to a queue
abbrev pub Does :
    {S : Type 0} (v : View S) (queue_key : Bytes) {A : Type 0}
    → Exec S A
    → Cells
    → A
    → Cells
    → Type 0
Does v queue_key m c x c' = Holds v (queue_part queue_key) m c x c'
