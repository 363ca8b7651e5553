-- ===== src/Queue/Calls.antt =====
-- The store's calls on the keys of a queue.
use candystore.Store.Holds.{keeping_call, writing_call, kept_map, put_map, Holds-pure}
use candystore.Base.{ℕ, ◌+◌, ◌^◌, ◌<◌, ◌≤◌, ◌≡◌, refl, ap, ◌∙◌, Option, none, some, arith}
use candystore.Base.Bytes.{Bytes, length}
use candystore.Hashing.{Hasher}
use candystore.Shard.Mmap.{InternalConfig}
use candystore.Shard.Entry.{get_or_create}
use candystore.Shard.Entry.Spec.{spec_value}
use candystore.Store.{
  Root, max_total_key_size, max_total_value_size, get_raw, set_raw, remove_raw, get_or_create_raw,
}
use candystore.Store.Raw.{
  View, IsMap, set_result, create_result, set_raw-Gives, get_or_create_raw-Gives,
}
use candystore.Queue.{Queue, make_queue_key, make_queue_item_key, bytes_of_queue, from_queue_bytes}
use candystore.Queue.Keys.{
  length-item_key, length-queue_key, length-bytes_of_queue, IsWords, queue_of_bytes-bytes_of_queue,
}
use candystore.Queue.Cells.{
  is_desc, is_item, Cells, encoded, put_item, put_desc, Rep-put_desc, Rep-put_item, Does,
}

-- the keys of the queue and its descriptor are within the limits
pub record Fits (config : InternalConfig) (queue_key : Bytes) : Type 0 where
  pub key : length queue_key + 9 ≤ max_total_key_size
  pub desc : length queue_key + 25 ≤ config.max_shard_size

-- a value is, as an item of the queue
pub record FitsItem (config : InternalConfig) (queue_key val : Bytes) : Type 0 where
  pub size : length val ≤ max_total_value_size
  pub entry : length queue_key + 9 + length val ≤ config.max_shard_size

abbrev pub or_new : Queue → Option Queue → Queue
or_new d none = d
or_new d (some e) = e

-- A descriptor that was written is read as it was.
pub Does-from_bytes :
    {S : Type 0} (v : View S) (queue_key : Bytes) (d : Queue) (c : Cells)
    → IsWords d
    → Does v queue_key (from_queue_bytes (bytes_of_queue d)) c d c
unfolding from_queue_bytes
Does-from_bytes v queue_key d c w =
    rw (length-bytes_of_queue d, queue_of_bytes-bytes_of_queue d w) (Holds-pure d c)

module _ {S : Type 0} {hash : Hasher} {config : InternalConfig} {root : Root S} {v : View S}
    (law : IsMap hash config root v) {queue_key : Bytes} (fits : Fits config queue_key) where
  pub Does-get_desc :
      (c : Cells)
      → Does v queue_key (get_raw hash config root (make_queue_key queue_key)) c (encoded c.desc) c
  unfolding get_raw
  Does-get_desc c =
      keeping_call (λ n s valid r. kept_map r.desc r (law.gets s valid (make_queue_key queue_key)))

  pub Does-get_item :
      (c : Cells) (i : ℕ)
      → i < 2 ^ 64
      → Does v queue_key (get_raw hash config root (make_queue_item_key queue_key i)) c (c.item i) c
  unfolding get_raw
  Does-get_item c i lt = keeping_call (λ n s valid r.
      kept_map (r.items i lt) r (law.gets s valid (make_queue_item_key queue_key i)))

  pub Does-remove_desc :
      (c : Cells)
      → Does v queue_key
          (remove_raw hash config root (make_queue_key queue_key))
          c
          (encoded c.desc)
          (put_desc none c)
  unfolding remove_raw
  Does-remove_desc c = keeping_call (λ n s valid r.
      put_map (make_queue_key queue_key) r.desc refl is_desc (Rep-put_desc queue_key r none)
        (law.removes s valid (make_queue_key queue_key)))

  pub Does-remove_item :
      (c : Cells) (i : ℕ)
      → i < 2 ^ 64
      → Does v queue_key
          (remove_raw hash config root (make_queue_item_key queue_key i))
          c
          (c.item i)
          (put_item i none c)
  unfolding remove_raw
  Does-remove_item c i lt = keeping_call (λ n s valid r.
      put_map (make_queue_item_key queue_key i) (r.items i lt) refl (is_item i)
        (Rep-put_item queue_key r i none lt)
        (law.removes s valid (make_queue_item_key queue_key i)))

  pub Does-set_desc :
      (c : Cells) (d : Queue)
      → Does v queue_key
          (set_raw hash config root (make_queue_key queue_key) (bytes_of_queue d))
          c
          (set_result (encoded c.desc))
          (put_desc (some d) c)
  Does-set_desc c d = writing_call (λ n s valid r.
      put_map (make_queue_key queue_key) (ap set_result r.desc) refl is_desc
        (Rep-put_desc queue_key r (some d))
        (set_raw-Gives law s valid (make_queue_key queue_key) (bytes_of_queue d)
          (omega (arith, length-queue_key queue_key, fits.key))
          (omega (arith, length-bytes_of_queue d))
          (omega (arith, length-queue_key queue_key, length-bytes_of_queue d, fits.desc))))

  pub Does-set_item :
      (c : Cells) (i : ℕ) (val : Bytes)
      → i < 2 ^ 64
      → FitsItem config queue_key val
      → Does v queue_key
          (set_raw hash config root (make_queue_item_key queue_key i) val)
          c
          (set_result (c.item i))
          (put_item i (some val) c)
  Does-set_item c i val lt small = writing_call (λ n s valid r.
      put_map (make_queue_item_key queue_key i) (ap set_result (r.items i lt)) refl (is_item i)
        (Rep-put_item queue_key r i (some val) lt)
        (set_raw-Gives law s valid (make_queue_item_key queue_key i) val
          (omega (arith, length-item_key queue_key i, fits.key)) small.size
          (omega (arith, length-item_key queue_key i, small.entry))))

  pub Does-create_desc :
      (c : Cells) (d : Queue)
      → Does v queue_key
          (get_or_create_raw hash config root (make_queue_key queue_key) (bytes_of_queue d))
          c
          (create_result (bytes_of_queue d) (encoded c.desc))
          (put_desc (some (or_new d c.desc)) c)
  Does-create_desc c d = writing_call (λ n s valid r.
      put_map (make_queue_key queue_key) (ap (create_result (bytes_of_queue d)) r.desc)
        (ap (spec_value get_or_create (bytes_of_queue d)) r.desc ∙ kept c.desc) is_desc
        (Rep-put_desc queue_key r (some (or_new d c.desc)))
        (get_or_create_raw-Gives law s valid (make_queue_key queue_key) (bytes_of_queue d)
          (omega (arith, length-queue_key queue_key, fits.key))
          (omega (arith, length-bytes_of_queue d))
          (omega (arith, length-queue_key queue_key, length-bytes_of_queue d, fits.desc))))
    where
      kept :
          (o : Option Queue)
          → spec_value get_or_create (bytes_of_queue d) (encoded o) ≡ encoded (some (or_new d o))
      kept none = refl
      kept (some e) = refl
