-- ===== src/Tests/Lists.antt =====
-- Uses of the theorems on lists, over a root that is a log of what was written.
use candystore.Base.{
  ℕ, ◌+◌, ◌≡◌, refl, sym, ap, ◌∙◌, ◌⊎◌, true, false, Option, none, some, List, [], ◌∷◌, update,
  update_ne, inl, inr, Bool-cases, arith,
}
use candystore.Base.Bytes.{Bytes, bytes_eq, bytes_eq_iff}
use candystore.Base.Maps.{Map, put, no_keys, at_key}
use candystore.Base.Outcome.{ok}
use candystore.Shard.Mmap.{KvPair}
use candystore.Shard.Entry.{replace}
use candystore.Shard.Entry.Spec.{spec_status, spec_value}
use candystore.Store.Raw.{View}
use candystore.Queue.{first_queue_idx}
use candystore.Queue.Contents.{items_from}
use candystore.Lists.{HashRoot, get_from_list_at_index, shrink_list}
use candystore.Lists.Cells.{ListCells, ph_of}
use candystore.Lists.Calls.{ListFits, ItemFits, ListHolds}
use candystore.Lists.Inv.{Linked, Short, ListInv, Linked-new, Short-new}
use candystore.Lists.Index.{IsHashMap, found_at, Holds-get_from_list_at_index}
use candystore.Lists.Insert.{ItemInserted, Holds-insert_to_list}
use candystore.Lists.Remove.{ItemRemoved, Holds-owned_remove_from_list}
use candystore.Lists.Set.{ItemSet, Holds-owned_set_in_list}
use candystore.Lists.Peek.{ListSteps, Holds-next}
use candystore.Lists.Moved.{ItemsFit, ItemsFit-new}
use candystore.Lists.Compact.{ListCompacted, Holds-compact_list_if_needed}
use candystore.Lists.Pop.{ListPops, Holds-owned_pop_list}
use candystore.Lists.Walk.{owned_pop_list, popped_list}
use candystore.Tests.{hash, config, val, other}
use mathlib.Core.List.{Memᴰ}
use mathlib.Core.List.Memᴰ

-- what was written under each key, the last first
abbrev Log : Type 0
Log = List (Bytes × Option Bytes)

abbrev logged : Log → Map
logged [] = no_keys
logged ((k, o) ∷ log) = put k o (logged log)

abbrev with_value : Bytes → Option Bytes → List KvPair → List KvPair
with_value k none kvs = kvs
with_value k (some w) kvs = (k, w) ∷ kvs

abbrev gathered : Map → Log → List KvPair
gathered f [] = []
gathered f ((k, o) ∷ log) = with_value k (f k) (gathered f log)

abbrev log_root : HashRoot Log
log_root = record {
  root = record {
    get_in = λ ph k s. (ok (logged s k), s);
    remove_in = λ ph k s. (ok (logged s k), (k, none) ∷ s);
    insert_in = λ ph k v mode s.
        (ok (spec_status mode (logged s k)), (k, spec_value mode v (logged s k)) ∷ s);
  };
  by_hash = λ ph s. (ok (gathered (logged s) s), s);
}

abbrev log_view : View Log
log_view = record { Valid = λ n s. Unit; map = logged }

with_value-Memᴰ :
    (k q w : Bytes) (o : Option Bytes) (kvs : List KvPair)
    → Memᴰ (q, w) (with_value k o kvs)
    → ((q ≡ k) × (o ≡ some w)) ⊎ Memᴰ (q, w) kvs
with_value-Memᴰ k q w none kvs m = inr m
with_value-Memᴰ k q w (some x) kvs m = elim (Memᴰ.cases_cons m) [
  | inl e ↦ inl (ap (λ p. p.0) e, ap (λ p. some p.1) (sym e))
  | inr n ↦ inr n
]

gathered_sound : (f : Map) (log : Log) (q w : Bytes) → Memᴰ (q, w) (gathered f log) → f q ≡ some w
gathered_sound f [] q w m = absurd (Memᴰ.not-nil m)
gathered_sound f ((k, o) ∷ log) q w m = elim (with_value-Memᴰ k q w (f k) (gathered f log) m) [
  | inl (e, at) ↦ ap f e ∙ at
  | inr n ↦ gathered_sound f log q w n
]

kept_Memᴰ :
    (kv : KvPair) (k : Bytes) (o : Option Bytes) (kvs : List KvPair)
    → Memᴰ kv kvs
    → Memᴰ kv (with_value k o kvs)
kept_Memᴰ kv k none kvs m = m
kept_Memᴰ kv k (some x) kvs m = Memᴰ.tail m

gathered-complete :
    (f : Map) (log : Log) (q w x : Bytes)
    → logged log q ≡ some x
    → f q ≡ some w
    → Memᴰ (q, w) (gathered f log)
gathered-complete f [] q w x e at = absurd (grind (arith, e))
gathered-complete f ((k, o) ∷ log) q w x e at = elim (Bool-cases (bytes_eq q k)) [
  | inl t ↦
      let same = (bytes_eq_iff q k).0 t in
      rw (ap f (sym same) ∙ at) (Memᴰ.head (ap (λ z. (z, w)) same))
  | inr no_key ↦
      kept_Memᴰ (q, w) k (f k) (gathered f log)
        (gathered-complete f log q w x (sym (rw no_key refl) ∙ e) at)
]

log_root-IsHashMap : IsHashMap hash config log_root log_view
log_root-IsHashMap = record {
  law = record {
    gets = λ s valid k. record { result = refl; valid = tt; map = λ q. refl };
    removes = λ s valid k. record { result = refl; valid = tt; map = λ q. refl };
    inserts = λ s valid k v mode a b c. record { result = refl; valid = tt; map = λ q. refl };
  };
  by_hash = λ s valid k. record {
    kvs = gathered (logged s) s;
    gives = record { result = refl; valid = tt; map = λ q. refl };
    sound = λ q w m. gathered_sound (logged s) s q w m;
    complete = λ q w e at. gathered-complete (logged s) s q w w at at;
  };
}

abbrev tasks : Bytes
tasks = 6 ∷ []

abbrev first_key : Bytes
first_key = 7 ∷ []

abbrev last_key : Bytes
last_key = 8 ∷ []

abbrev no_chain : ℕ → Option Bytes
no_chain i = none

abbrev empty_item : Bytes → Option (Bytes × ℕ)
empty_item k = none

abbrev one_chain : ℕ → Option Bytes
one_chain = update no_chain first_queue_idx (some first_key)

abbrev first_item : Bytes → Option (Bytes × ℕ)
first_item = at_key first_key (some (val, first_queue_idx)) empty_item

-- a list of two items, with a hole between them
abbrev listed_two : ListCells
listed_two = record {
  desc =
      some (record { head_idx = first_queue_idx; tail_idx = first_queue_idx + 3; num_items = 2 });
  chain = update one_chain (first_queue_idx + 2) (some last_key);
  item = at_key last_key (some (other, first_queue_idx + 2)) first_item;
}

no_links : Linked no_chain empty_item
no_links = record {
  leads = λ i k e. absurd (grind (arith, e));
  led = λ k w i e. absurd (grind (arith, e));
}

none-Short : Short empty_item
none-Short k w i e = absurd (grind (arith, e))

two_ListInv : ListInv listed_two
unfolding items_from bytes_eq
two_ListInv = record {
  range = record {
    ordered = omega arith;
    words = omega arith;
    outside = λ i out.
        update_ne one_chain (first_queue_idx + 2) i (some last_key) (omega (arith, out))
        ∙ update_ne no_chain first_queue_idx i (some first_key) (omega (arith, out));
    counted = refl;
  };
  links =
      Linked-new (Linked-new no_links first_queue_idx first_key val refl refl) (first_queue_idx + 2)
        last_key other refl refl;
  short =
      Short-new (Short-new none-Short first_key val first_queue_idx (omega arith)) last_key other
        (first_queue_idx + 2) (omega arith);
}

list_fits : ListFits config tasks
list_fits = record { key = omega arith; desc = omega arith }

item_fits : ItemFits config first_key other
item_fits = record { key = omega arith; size = omega arith; entry = omega arith }

Holds-insert_to_list_example :
    ItemInserted log_root log_root-IsHashMap.law list_fits item_fits (replace none) listed_two
Holds-insert_to_list_example =
    Holds-insert_to_list log_root log_root-IsHashMap.law list_fits item_fits (replace none)
      listed_two two_ListInv (omega arith)

Holds-owned_set_in_list_example :
    ItemSet log_root log_root-IsHashMap.law list_fits item_fits true listed_two
Holds-owned_set_in_list_example =
    Holds-owned_set_in_list log_root log_root-IsHashMap.law list_fits item_fits true listed_two
      two_ListInv (omega arith)

Holds-owned_remove_from_list_example :
    ItemRemoved log_root log_root-IsHashMap.law list_fits first_key listed_two
Holds-owned_remove_from_list_example =
    Holds-owned_remove_from_list log_root log_root-IsHashMap.law list_fits first_key listed_two
      two_ListInv

Holds-get_from_list_at_index_example :
    ListHolds log_root-IsHashMap.law list_fits
      (get_from_list_at_index hash config log_root (ph_of hash tasks) (first_queue_idx + 2))
      listed_two
      (found_at hash tasks listed_two (first_queue_idx + 2))
      listed_two
Holds-get_from_list_at_index_example =
    Holds-get_from_list_at_index log_root-IsHashMap list_fits listed_two (first_queue_idx + 2)
      (omega arith) two_ListInv

Holds-next_example : ListSteps log_root-IsHashMap list_fits false listed_two none
Holds-next_example = Holds-next log_root-IsHashMap list_fits false listed_two none two_ListInv tt

Holds-owned_pop_list_example :
    ListPops log_root-IsHashMap list_fits
      (owned_pop_list hash config log_root tasks true)
      listed_two
Holds-owned_pop_list_example =
    Holds-owned_pop_list log_root-IsHashMap list_fits listed_two two_ListInv

none_fit : ItemsFit config empty_item
none_fit k w i e = absurd (grind (arith, e))

Holds-compact_list_if_needed_example :
    ListCompacted log_root-IsHashMap list_fits (λ span holes. true) listed_two
Holds-compact_list_if_needed_example =
    Holds-compact_list_if_needed log_root-IsHashMap list_fits (λ span holes. true) listed_two
      two_ListInv
      (ItemsFit-new
        (ItemsFit-new none_fit first_key val first_queue_idx
          (record { key = omega arith; size = omega arith; entry = omega arith }))
        last_key other (first_queue_idx + 2)
        (record { key = omega arith; size = omega arith; entry = omega arith }))
      (omega arith)

-- The item between the others leaves a hole, the one at the head moves the head.
shrink_list_middle :
    shrink_list 11 (record { head_idx = 10; tail_idx = 13; num_items = 3 })
    ≡ record { head_idx = 10; tail_idx = 13; num_items = 2 }
unfolding shrink_list
shrink_list_middle = refl

shrink_list_head :
    shrink_list 10 (record { head_idx = 10; tail_idx = 13; num_items = 3 })
    ≡ record { head_idx = 11; tail_idx = 13; num_items = 2 }
unfolding shrink_list
shrink_list_head = refl

-- A pop at the tail of two neighbours leaves one item, and no index for it.
popped_list_tail :
    popped_list false 12 (record { head_idx = 11; tail_idx = 13; num_items = 2 })
    ≡ record { head_idx = 11; tail_idx = 11; num_items = 1 }
unfolding popped_list
popped_list_tail = refl
