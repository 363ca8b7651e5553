-- ===== src/Lists/Insert/Told.antt =====
-- What an insertion tells and leaves, and the index behind the last one.
use candystore.Base.{
  ℕ, ◌^◌, ◌<◌, ◌≡◌, Option, none, some, List, [], ◌∷◌, ◌++◌, update, inr, if◌then◌else◌, arith,
}
use candystore.Base.Bytes.{Bytes, bytes_eq}
use candystore.Base.Word.{le_bytes}
use candystore.Shard.Entry.{InsertMode, set, replace, get_or_create}
use candystore.Queue.{tail, push_at, first_queue_idx}
use candystore.Queue.Contents.{Item, contents, InRange, DescInv}
use candystore.Queue.Push.{PushRoom, new_idx, with_new, Placed-at, placed_first}
use candystore.Lists.{
  ListDesc, InsertToListStatus, created, item_does_not_exist, item_wrong_value, item_existing_value,
  item_replaced,
}

-- what an insertion tells of an item
abbrev pub inserted_status : InsertMode → Bytes → Option (Bytes × ℕ) → InsertToListStatus
inserted_status set val none = created val
inserted_status get_or_create val none = created val
inserted_status (replace expected) val none = item_does_not_exist
inserted_status set val (some (old, i)) = item_replaced old
inserted_status get_or_create val (some (old, i)) = item_existing_value old
inserted_status (replace none) val (some (old, i)) = item_replaced old
inserted_status (replace (some expected)) val (some (old, i)) =
    if bytes_eq expected (le_bytes 8 i) then item_replaced old else item_wrong_value old

-- the entry behind it; a new one has the index `idx`
abbrev pub item_after : InsertMode → Bytes → ℕ → Option (Bytes × ℕ) → Option (Bytes × ℕ)
item_after set val idx none = some (val, idx)
item_after get_or_create val idx none = some (val, idx)
item_after (replace expected) val idx none = none
item_after set val idx (some (old, i)) = some (val, i)
item_after get_or_create val idx (some (old, i)) = some (old, i)
item_after (replace none) val idx (some (old, i)) = some (val, i)
item_after (replace (some expected)) val idx (some (old, i)) =
    if bytes_eq expected (le_bytes 8 i) then some (val, i) else some (old, i)

-- the list behind it
abbrev pub with_item : InsertMode → Item → Option (Bytes × ℕ) → List Item → List Item
with_item mode x (some entry) xs = xs
with_item set x none xs = xs ++ (x ∷ [])
with_item get_or_create x none xs = xs ++ (x ∷ [])
with_item (replace expected) x none xs = xs

-- a key at the index behind the last one
pub record PlacedLast (chain : ℕ → Option Bytes) (o : Option ListDesc) (k : Bytes) : Type 0 where
  pub inv : InRange (update chain (new_idx tail o) (some k)) (with_new tail o)
  pub listed :
      contents
        (record { desc = some (with_new tail o); item = update chain (new_idx tail o) (some k) })
      ≡ contents (record { desc = o; item = chain }) ++ ((new_idx tail o, k) ∷ [])
  pub small : new_idx tail o < 2 ^ 64
  pub free : chain (new_idx tail o) ≡ none

pub places :
    (chain : ℕ → Option Bytes) (o : Option ListDesc) (k : Bytes)
    → DescInv chain o
    → PushRoom tail o
    → PlacedLast chain o k
unfolding contents push_at
places chain none k free room =
    let p = placed_first chain k free in
    record { inv = p.0; listed = p.1; small = omega arith; free = free first_queue_idx }
places chain (some d) k v room =
    let p = Placed-at chain k tail d v room in
    record {
      inv = p.inv;
      listed = p.listed;
      small = p.small;
      free = v.outside d.tail_idx (inr (omega arith));
    }
