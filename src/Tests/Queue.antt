-- ===== src/Tests/Queue.antt =====
-- Uses of the theorems on queues and big items, over a root that is a map, and runs of the code.
use candystore.Base.{
  ℕ, ◌+◌, refl, ◌∙◌, Option, none, some, [], ◌∷◌, update, update_ne, inr, false, arith,
}
use candystore.Base.Bytes.{Bytes, length}
use candystore.Shard.Mmap.{InternalConfig}
use candystore.Queue.{Queue, head, tail}
use candystore.Queue.Cells.{Cells, Does}
use candystore.Queue.Calls.{Fits, FitsItem}
use candystore.Queue.Contents.{items_from, contents, InRange, QueueInv}
use candystore.Base.{none}
use candystore.Queue.{first_queue_idx}
use candystore.Queue.Push.{Pushed, Does-push_to_queue}
use candystore.Queue.Pop.{Popped, Does-pop_queue}
use candystore.Queue.Peek.{front, Does-peek_with_idx, Does-queue_len}
use candystore.Queue.Next.{end_of}
use candystore.Queue.Walk.{peek_with_idx, queue_len}
use candystore.Queue.Extend.{AllFit, Extended, Does-extend_queue}
use candystore.Queue.Discard.{Discarded, Does-discard_queue}
use candystore.Queue.Remove.{Removed, Does-remove_from_queue}
use candystore.Queue.Only.{Lost, remove_only}
use candystore.Store.BigLaws.{WroteBig, set_big-get_big}
use candystore.Tests.{hash, config, val, other}
use candystore.Tests.Store.{map_root, map_view, map_root-IsMap}

abbrev jobs : Bytes
jobs = 5 ∷ []

abbrev no_items : ℕ → Option Bytes
no_items i = none

-- a queue of two items, with a hole between them
abbrev holed : Cells
holed = record {
  desc =
      some (record { head_idx = first_queue_idx; tail_idx = first_queue_idx + 3; num_items = 2 });
  item = update (update no_items first_queue_idx (some val)) (first_queue_idx + 2) (some other);
}

-- a queue of one item
abbrev single : Queue
single = record { head_idx = first_queue_idx; tail_idx = first_queue_idx + 1; num_items = 1 }

abbrev single_item : ℕ → Option Bytes
single_item = update no_items first_queue_idx (some val)

holed-QueueInv : QueueInv holed
unfolding items_from
holed-QueueInv = record {
  ordered = omega arith;
  words = omega arith;
  outside = λ i out.
      update_ne (update no_items first_queue_idx (some val)) (first_queue_idx + 2) i (some other)
        (omega (arith, out))
      ∙ update_ne no_items first_queue_idx i (some val) (omega (arith, out));
  counted = refl;
}

single-InRange : InRange single_item single
unfolding items_from
single-InRange = record {
  ordered = omega arith;
  words = omega arith;
  outside = λ i out. update_ne no_items first_queue_idx i (some val) (omega (arith, out));
  counted = refl;
}

fits : Fits config jobs
fits = record { key = omega arith; desc = omega arith }

fits_val : FitsItem config jobs val
fits_val = record { size = omega arith; entry = omega arith }

two_fit : AllFit config jobs (val ∷ other ∷ [])
unfolding AllFit
two_fit = (fits_val, (record { size = omega arith; entry = omega arith }, tt))

Does-push_to_queue_example : Pushed (map_root-IsMap config) fits fits_val head holed
Does-push_to_queue_example =
    Does-push_to_queue (map_root-IsMap config) fits fits_val head holed holed-QueueInv (omega arith)

Does-pop_queue_example : Popped (map_root-IsMap config) fits tail holed
Does-pop_queue_example = Does-pop_queue (map_root-IsMap config) fits tail holed holed-QueueInv

Does-peek_with_idx_example :
    Does map_view jobs
      (peek_with_idx hash config map_root jobs false)
      holed
      (front (end_of false) (contents holed))
      holed
Does-peek_with_idx_example =
    Does-peek_with_idx (map_root-IsMap config) fits false holed holed-QueueInv

Does-queue_len_example :
    Does map_view jobs (queue_len hash config map_root jobs) holed (length (contents holed)) holed
Does-queue_len_example = Does-queue_len (map_root-IsMap config) fits holed holed-QueueInv

Does-extend_queue_example : Extended (map_root-IsMap config) fits holed (val ∷ other ∷ [])
Does-extend_queue_example =
    Does-extend_queue (map_root-IsMap config) fits holed (val ∷ other ∷ []) holed-QueueInv
      (omega arith) two_fit

Does-discard_queue_example : Discarded (map_root-IsMap config) fits holed
Does-discard_queue_example = Does-discard_queue (map_root-IsMap config) fits holed holed-QueueInv

Does-remove_from_queue_example : Removed (map_root-IsMap config) fits first_queue_idx holed
Does-remove_from_queue_example =
    Does-remove_from_queue (map_root-IsMap config) fits first_queue_idx holed (omega arith)
      holed-QueueInv (inr (omega arith))

remove_only_example :
    Lost (map_root-IsMap config) fits single (record { desc = some single; item = single_item }) val
remove_only_example =
    remove_only (map_root-IsMap config) fits single single_item val val single-InRange (omega arith)
      refl fits_val

-- room for a whole chunk
abbrev roomy : InternalConfig
roomy = record config { max_shard_size = 100000 }

fits_roomy : Fits roomy jobs
fits_roomy = record { key = omega arith; desc = omega arith }

set_big-get_big_example : WroteBig (map_root-IsMap roomy) fits_roomy holed val
set_big-get_big_example =
    set_big-get_big (map_root-IsMap roomy) fits_roomy val (omega arith) (omega arith) holed
      holed-QueueInv
