-- ===== src/Lists/Calls.antt =====
-- The store's calls on the keys of a list.
use candystore.Base.{ℕ, ◌+◌, ◌^◌, ◌<◌, ◌≤◌, ◌≡◌, refl, ap, ◌∙◌, Option, none, some, ◌++◌, arith}
use candystore.Base.Bytes.{Bytes, length, length-append}
use candystore.Base.Word.{le_bytes, length-le_bytes}
use candystore.Base.Outcome.{Exec}
use candystore.Hashing.{Hasher}
use candystore.Shard.Mmap.{InternalConfig}
use candystore.Shard.Entry.{get_or_create, replace}
use candystore.Shard.Entry.Spec.{spec_value}
use candystore.Store.{
  Root, max_total_key_size, max_total_value_size, get_raw, set_raw, replace_raw, remove_raw,
  get_or_create_raw,
}
use candystore.Store.Raw.{
  View, IsMap, set_result, replace_result, create_result, set_raw-Gives, replace_raw-Gives,
  get_or_create_raw-Gives,
}
use candystore.Store.Holds.{keeping_call, writing_call, Holds, Holds-pure, kept_map, put_map}
use candystore.Queue.{bytes_of_queue, from_queue_bytes}
use candystore.Queue.Keys.{IsWords, length-bytes_of_queue, queue_of_bytes-bytes_of_queue}
use candystore.Queue.Cells.{encoded}
use candystore.Queue.Calls.{or_new}
use candystore.Lists.{ListDesc, make_list_key, make_item_key, chain_key}
use candystore.Lists.Keys.{length-list_key, length-item_key, length-chain_key}
use candystore.Lists.Cells.{
  ListCells, put_desc, put_chain, put_item, stored, ph_of, item_hash, linked, is_desc, is_chain,
  is_item, list_part, Rep-put_desc, Rep-put_chain, Rep-put_item,
}

-- the descriptor and the chain are within the limits
pub record ListFits (config : InternalConfig) (list_key : Bytes) : Type 0 where
  pub key : length list_key + 1 ≤ max_total_key_size
  pub desc : length list_key + 25 ≤ config.max_shard_size

-- an item is
pub record ItemFits (config : InternalConfig) (item_key val : Bytes) : Type 0 where
  pub key : length item_key + 9 ≤ max_total_key_size
  pub size : length val + 8 ≤ max_total_value_size
  pub entry : length item_key + 9 + (length val + 8) ≤ config.max_shard_size

pub length-stored : (val : Bytes) (i : ℕ) → length (val ++ le_bytes 8 i) ≡ length val + 8
length-stored val i = omega (arith, length-append val (le_bytes 8 i), length-le_bytes 8 i)

module _ {S : Type 0} {hash : Hasher} {config : InternalConfig} {root : Root S} {v : View S}
    (law : IsMap hash config root v) {list_key : Bytes} (fits : ListFits config list_key) where
  abbrev pub ListHolds : {A : Type 0} → Exec S A → ListCells → A → ListCells → Type 0
  ListHolds m c x c' = Holds v (list_part hash list_key) m c x c'

  pub holds_from_bytes :
      (d : ListDesc) (c : ListCells)
      → IsWords d
      → ListHolds (from_queue_bytes (bytes_of_queue d)) c d c
  unfolding from_queue_bytes
  holds_from_bytes d c w =
      rw (length-bytes_of_queue d, queue_of_bytes-bytes_of_queue d w) (Holds-pure d c)

  pub holds_get_desc :
      (c : ListCells)
      → ListHolds (get_raw hash config root (make_list_key list_key)) c (encoded c.desc) c
  unfolding get_raw
  holds_get_desc c =
      keeping_call (λ n s valid r. kept_map r.desc r (law.gets s valid (make_list_key list_key)))

  pub holds_get_chain :
      (c : ListCells) (i : ℕ)
      → i < 2 ^ 64
      → ListHolds
          (get_raw hash config root (chain_key (ph_of hash list_key) i))
          c
          (linked hash list_key (c.chain i))
          c
  unfolding get_raw
  holds_get_chain c i lt = keeping_call (λ n s valid r.
      kept_map (r.chains i lt) r (law.gets s valid (chain_key (ph_of hash list_key) i)))

  pub holds_get_item :
      (c : ListCells) (k : Bytes)
      → ListHolds
          (get_raw hash config root (make_item_key (ph_of hash list_key) k))
          c
          (stored (c.item k))
          c
  unfolding get_raw
  holds_get_item c k = keeping_call (λ n s valid r.
      kept_map (r.items k) r (law.gets s valid (make_item_key (ph_of hash list_key) k)))

  pub holds_remove_desc :
      (c : ListCells)
      → ListHolds
          (remove_raw hash config root (make_list_key list_key))
          c
          (encoded c.desc)
          (put_desc none c)
  unfolding remove_raw
  holds_remove_desc c = keeping_call (λ n s valid r.
      put_map (make_list_key list_key) r.desc refl is_desc (Rep-put_desc hash list_key r none)
        (law.removes s valid (make_list_key list_key)))

  pub holds_remove_chain :
      (c : ListCells) (i : ℕ)
      → i < 2 ^ 64
      → ListHolds
          (remove_raw hash config root (chain_key (ph_of hash list_key) i))
          c
          (linked hash list_key (c.chain i))
          (put_chain i none c)
  unfolding remove_raw
  holds_remove_chain c i lt = keeping_call (λ n s valid r.
      put_map (chain_key (ph_of hash list_key) i) (r.chains i lt) refl (is_chain i)
        (Rep-put_chain hash list_key r i none lt)
        (law.removes s valid (chain_key (ph_of hash list_key) i)))

  pub holds_remove_item :
      (c : ListCells) (k : Bytes)
      → ListHolds
          (remove_raw hash config root (make_item_key (ph_of hash list_key) k))
          c
          (stored (c.item k))
          (put_item k none c)
  unfolding remove_raw
  holds_remove_item c k = keeping_call (λ n s valid r.
      put_map (make_item_key (ph_of hash list_key) k) (r.items k) refl (is_item k)
        (Rep-put_item hash list_key r k none)
        (law.removes s valid (make_item_key (ph_of hash list_key) k)))

  pub holds_set_desc :
      (c : ListCells) (d : ListDesc)
      → ListHolds
          (set_raw hash config root (make_list_key list_key) (bytes_of_queue d))
          c
          (set_result (encoded c.desc))
          (put_desc (some d) c)
  holds_set_desc c d = writing_call (λ n s valid r.
      put_map (make_list_key list_key) (ap set_result r.desc) refl is_desc
        (Rep-put_desc hash list_key r (some d))
        (set_raw-Gives law s valid (make_list_key list_key) (bytes_of_queue d)
          (omega (arith, length-list_key list_key, fits.key))
          (omega (arith, length-bytes_of_queue d))
          (omega (arith, length-list_key list_key, length-bytes_of_queue d, fits.desc))))

  pub holds_set_chain :
      (c : ListCells) (i : ℕ) (k : Bytes)
      → i < 2 ^ 64
      → ListHolds
          (set_raw hash config root
            (chain_key (ph_of hash list_key) i)
            (le_bytes 8 (item_hash hash list_key k)))
          c
          (set_result (linked hash list_key (c.chain i)))
          (put_chain i (some k) c)
  holds_set_chain c i k lt = writing_call (λ n s valid r.
      put_map (chain_key (ph_of hash list_key) i) (ap set_result (r.chains i lt)) refl (is_chain i)
        (Rep-put_chain hash list_key r i (some k) lt)
        (set_raw-Gives law s valid (chain_key (ph_of hash list_key) i)
          (le_bytes 8 (item_hash hash list_key k))
          (omega (arith, length-chain_key (ph_of hash list_key) i))
          (omega (arith, length-le_bytes 8 (item_hash hash list_key k)))
          (omega (
            arith,
            length-chain_key (ph_of hash list_key) i,
            length-le_bytes 8 (item_hash hash list_key k),
            fits.desc,
          ))))

  pub holds_set_item :
      (c : ListCells) (k val : Bytes) (i : ℕ)
      → ItemFits config k val
      → ListHolds
          (set_raw hash config root (make_item_key (ph_of hash list_key) k) (val ++ le_bytes 8 i))
          c
          (set_result (stored (c.item k)))
          (put_item k (some (val, i)) c)
  holds_set_item c k val i small = writing_call (λ n s valid r.
      put_map (make_item_key (ph_of hash list_key) k) (ap set_result (r.items k)) refl (is_item k)
        (Rep-put_item hash list_key r k (some (val, i)))
        (set_raw-Gives law s valid (make_item_key (ph_of hash list_key) k) (val ++ le_bytes 8 i)
          (omega (arith, length-item_key (ph_of hash list_key) k, small.key))
          (omega (arith, length-stored val i, small.size))
          (omega
            (arith, length-item_key (ph_of hash list_key) k, length-stored val i, small.entry))))

  pub holds_replace_item :
      (c : ListCells) (k val old : Bytes) (i j : ℕ)
      → c.item k ≡ some (old, j)
      → ItemFits config k val
      → ListHolds
          (replace_raw hash config root
            (make_item_key (ph_of hash list_key) k)
            (val ++ le_bytes 8 i)
            none)
          c
          (replace_result none (stored (some (old, j))))
          (put_item k (some (val, i)) c)
  holds_replace_item c k val old i j e small = writing_call (λ n s valid r.
      let was = r.items k ∙ ap stored e in
      put_map (make_item_key (ph_of hash list_key) k) (ap (replace_result none) was)
        (ap (spec_value (replace none) (val ++ le_bytes 8 i)) was) (is_item k)
        (Rep-put_item hash list_key r k (some (val, i)))
        (replace_raw-Gives law s valid (make_item_key (ph_of hash list_key) k) (val ++ le_bytes 8 i)
          (omega (arith, length-item_key (ph_of hash list_key) k, small.key))
          (omega (arith, length-stored val i, small.size))
          (omega (arith, length-item_key (ph_of hash list_key) k, length-stored val i, small.entry))
          none))

  pub holds_create_desc :
      (c : ListCells) (d : ListDesc)
      → ListHolds
          (get_or_create_raw hash config root (make_list_key list_key) (bytes_of_queue d))
          c
          (create_result (bytes_of_queue d) (encoded c.desc))
          (put_desc (some (or_new d c.desc)) c)
  holds_create_desc c d = writing_call (λ n s valid r.
      put_map (make_list_key list_key) (ap (create_result (bytes_of_queue d)) r.desc)
        (ap (spec_value get_or_create (bytes_of_queue d)) r.desc ∙ kept c.desc) is_desc
        (Rep-put_desc hash list_key r (some (or_new d c.desc)))
        (get_or_create_raw-Gives law s valid (make_list_key list_key) (bytes_of_queue d)
          (omega (arith, length-list_key list_key, fits.key))
          (omega (arith, length-bytes_of_queue d))
          (omega (arith, length-list_key list_key, length-bytes_of_queue d, fits.desc))))
    where
      kept :
          (o : Option ListDesc)
          → spec_value get_or_create (bytes_of_queue d) (encoded o) ≡ encoded (some (or_new d o))
      kept none = refl
      kept (some e) = refl
