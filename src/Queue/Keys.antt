-- ===== src/Queue/Keys.antt =====
-- The keys of a queue do not meet, and its descriptor reads back.
use candystore.Base.{ℕ, ◌+◌, ◌^◌, ◌<◌, ◌≡◌, ◌≢◌, refl, sym, ap, ◌∙◌, [], ◌∷◌, ◌++◌, arith}
use candystore.Base.Bytes.{
  Bytes, length, length-append, take, drop, take-append, drop-append, take_all,
}
use candystore.Base.Word.{le_bytes, of_le_bytes, length-le_bytes, of_le_bytes-le_bytes}
use candystore.Queue.{Queue, make_queue_key, make_queue_item_key, bytes_of_queue, queue_of_bytes}
use native.Mathlib.Nat.{le_of_eq}
use mathlib.Core.List.{append_assoc}

append_cancel : (xs ys zs : Bytes) → xs ++ ys ≡ xs ++ zs → ys ≡ zs
append_cancel xs ys zs e =
    sym (drop-append (length xs) xs ys refl)
    ∙ ap (drop (length xs)) e
    ∙ drop-append (length xs) xs zs refl

take_word : (i : ℕ) (rest : Bytes) → take 8 (le_bytes 8 i ++ rest) ≡ le_bytes 8 i
take_word i rest = take-append 8 (le_bytes 8 i) rest (sym (length-le_bytes 8 i))

drop_word : (i : ℕ) (rest : Bytes) → drop 8 (le_bytes 8 i ++ rest) ≡ rest
drop_word i rest = drop-append 8 (le_bytes 8 i) rest (sym (length-le_bytes 8 i))

-- An index can be read off its key.
pub item_key_injective :
    (queue_key : Bytes) (i j : ℕ)
    → i < 2 ^ 64
    → j < 2 ^ 64
    → make_queue_item_key queue_key i ≡ make_queue_item_key queue_key j
    → i ≡ j
item_key_injective queue_key i j hi hj e =
    sym (of_le_bytes-le_bytes i hi)
    ∙ ap of_le_bytes (
        sym (take_word i (7 ∷ []))
        ∙ ap (take 8)
            (append_cancel queue_key (le_bytes 8 i ++ (7 ∷ [])) (le_bytes 8 j ++ (7 ∷ [])) e)
        ∙ take_word j (7 ∷ []))
    ∙ of_le_bytes-le_bytes j hj

pub length-item_key :
    (queue_key : Bytes) (i : ℕ) → length (make_queue_item_key queue_key i) ≡ length queue_key + 9
length-item_key queue_key i = omega (
  arith,
  length-append queue_key (le_bytes 8 i ++ (7 ∷ [])),
  length-append (le_bytes 8 i) (7 ∷ []),
  length-le_bytes 8 i,
)

pub length-queue_key :
    (queue_key : Bytes) → length (make_queue_key queue_key) ≡ length queue_key + 1
length-queue_key queue_key = length-append queue_key (6 ∷ [])

pub item_key_ne :
    (queue_key : Bytes) (i : ℕ) → make_queue_item_key queue_key i ≢ make_queue_key queue_key
item_key_ne queue_key i e =
    omega (arith, length-item_key queue_key i, length-queue_key queue_key, ap length e)

pub record IsWords (d : Queue) : Type 0 where
  pub head_word : d.head_idx < 2 ^ 64
  pub tail_word : d.tail_idx < 2 ^ 64
  pub num_word : d.num_items < 2 ^ 64

pub length-bytes_of_queue : (d : Queue) → length (bytes_of_queue d) ≡ 24
unfolding bytes_of_queue
length-bytes_of_queue d = omega (
  arith,
  length-append (le_bytes 8 d.head_idx) (le_bytes 8 d.tail_idx ++ le_bytes 8 d.num_items),
  length-append (le_bytes 8 d.tail_idx) (le_bytes 8 d.num_items),
  length-le_bytes 8 d.head_idx,
  length-le_bytes 8 d.tail_idx,
  length-le_bytes 8 d.num_items,
)

pub queue_of_bytes-bytes_of_queue : (d : Queue) → IsWords d → queue_of_bytes (bytes_of_queue d) ≡ d
unfolding queue_of_bytes bytes_of_queue
queue_of_bytes-bytes_of_queue d w =
    rw
      (
        take_word d.head_idx (le_bytes 8 d.tail_idx ++ le_bytes 8 d.num_items),
        drop_16,
        drop_word d.head_idx (le_bytes 8 d.tail_idx ++ le_bytes 8 d.num_items),
        take_word d.tail_idx (le_bytes 8 d.num_items),
        take_all 8 (le_bytes 8 d.num_items) (le_of_eq (length-le_bytes 8 d.num_items)),
        of_le_bytes-le_bytes d.head_idx w.head_word,
        of_le_bytes-le_bytes d.tail_idx w.tail_word,
        of_le_bytes-le_bytes d.num_items w.num_word,
      )
      refl
  where
    drop_16 :
        drop 16 (le_bytes 8 d.head_idx ++ (le_bytes 8 d.tail_idx ++ le_bytes 8 d.num_items))
        ≡ le_bytes 8 d.num_items
    drop_16 =
        ap (drop 16) (
          sym
            (append_assoc (le_bytes 8 d.head_idx) (le_bytes 8 d.tail_idx) (le_bytes 8 d.num_items)))
        ∙ drop-append 16 (le_bytes 8 d.head_idx ++ le_bytes 8 d.tail_idx) (le_bytes 8 d.num_items) (
            omega (
              arith,
              length-append (le_bytes 8 d.head_idx) (le_bytes 8 d.tail_idx),
              length-le_bytes 8 d.head_idx,
              length-le_bytes 8 d.tail_idx,
            ))
