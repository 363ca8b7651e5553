-- ===== src/Lists/Index.antt =====
-- `get_from_list_at_index`: the chain and the entries of a hash lead to the item of an index.
use candystore.Base.{
  ℕ, ◌-◌, ◌^◌, ◌<◌, ◌≡◌, refl, sym, ap, ◌∙◌, Bool, true, false, ◌&&◌, Option, none, some, List, [],
  ◌∷◌, ◌++◌, inl, inr, Option-cases, Bool-cases, arith,
}
use candystore.Base.Bytes.{Bytes, length, take, drop, drop-append, take-append, length-append}
use candystore.Base.Word.{le_bytes, length-le_bytes, of_le_bytes-le_bytes}
use candystore.Base.Suffix.{ends_with, ends_with-append, ends_with-split}
use candystore.Base.Outcome.{pure, ◌>>=◌}
use candystore.Hashing.{Hasher, PartedHash, parted_hash}
use candystore.Hashing.Laws.{from_hash_parts}
use candystore.Shard.Mmap.{InternalConfig, KvPair}
use candystore.Store.Raw.{View, Gives, Gives-bind, IsMap}
use candystore.Store.Holds.{keeping_call, Holds-pure, Holds-bind, kept_map}
use candystore.Queue.Contents.{DescInv}
use candystore.Queue.Drop.{inside, clash}
use candystore.Lists.{
  ListDesc, HashRoot, make_item_key, item_suffix, find_item, get_by_hash, from_hash_bytes,
  get_from_list_at_index,
}
use candystore.Lists.Cells.{ListCells, stored, ph_of, item_hash, ListRep}
use candystore.Lists.Calls.{ListFits, ListHolds, holds_get_chain}
use candystore.Lists.Inv.{Linked, ListInv, some_injective, some-left}
use candystore.Lists.Keys.{word_injective}
use mathlib.Core.Path.{ap₂}
use mathlib.Core.List.{Memᴰ}
use mathlib.Core.List.Memᴰ

-- the contract of `get_by_hash`, for the hash of a key: the entries that it returns are in the map,
-- and all entries of the hash are among them
pub record HashEntries {S : Type 0} (hash : Hasher) (hr : HashRoot S) (v : View S) (n : ℕ) (s : S)
    (ph : PartedHash) : Type 0 where
  pub kvs : List KvPair
  pub gives : Gives v n (hr.by_hash ph) s kvs (v.map s)
  pub sound : (k w : Bytes) → Memᴰ (k, w) kvs → v.map s k ≡ some w
  pub complete : (k w : Bytes) → parted_hash hash k ≡ ph → v.map s k ≡ some w → Memᴰ (k, w) kvs

pub record IsHashMap {S : Type 0} (hash : Hasher) (config : InternalConfig) (hr : HashRoot S)
    (v : View S) : Type 0 where
  pub law : IsMap hash config hr.root v
  pub by_hash :
      {n : ℕ} (s : S) → v.Valid n s → (k : Bytes) → HashEntries hash hr v n s (parted_hash hash k)

-- an entry passes the test of `find_item`
abbrev is_item_at : PartedHash → ℕ → KvPair → Bool
is_item_at list_ph idx kv = ends_with kv.0 (item_suffix list_ph) && ends_with kv.1 (le_bytes 8 idx)

find_item_only :
    (list_ph : PartedHash) (idx : ℕ) (kv : KvPair) (kvs : List KvPair)
    → is_item_at list_ph idx kv ≡ true
    → ((q w : Bytes) → Memᴰ (q, w) kvs → is_item_at list_ph idx (q, w) ≡ true → (q, w) ≡ kv)
    → Memᴰ kv kvs
    → find_item list_ph idx kvs ≡ some kv
unfolding find_item
find_item_only list_ph idx kv [] good only m = absurd (Memᴰ.not-nil m)
find_item_only list_ph idx kv ((q, w) ∷ kvs) good only m =
    elim (Bool-cases (is_item_at list_ph idx (q, w))) [
      | inl t ↦ rw t (ap some (only q w (Memᴰ.head refl) t))
      | inr f ↦ rw f (
          find_item_only list_ph idx kv kvs good (λ a b n. only a b (Memᴰ.tail n))
            (elim (Memᴰ.cases_cons m) [
              | inl e ↦ absurd (grind (arith, f, good, ap (is_item_at list_ph idx) e))
              | inr n ↦ n
            ]))
    ]

both_true : (a b : Bool) → a && b ≡ true → (a ≡ true) × (b ≡ true)
both_true true b e = (refl, e)
both_true false true e = absurd (grind (arith, e))
both_true false false e = absurd (grind (arith, e))

suffix_cancel : (xs ys a b : Bytes) → length a ≡ length b → xs ++ a ≡ ys ++ b → (xs ≡ ys) × (a ≡ b)
suffix_cancel xs ys a b len e =
    let same : length xs ≡ length ys =
      omega (arith, ap length e, length-append xs a, length-append ys b) in
    (
      sym (take-append (length xs) xs a refl)
          ∙ ap (take (length xs)) e
          ∙ take-append (length xs) ys b same,
      sym (drop-append (length xs) xs a refl)
          ∙ ap (drop (length xs)) e
          ∙ drop-append (length xs) ys b same,
    )

-- an index of an item is a machine word
word_of :
    (o : Option ListDesc) (chain : ℕ → Option Bytes) (i : ℕ) (k : Bytes)
    → DescInv chain o
    → chain i ≡ some k
    → i < 2 ^ 64
word_of none chain i k free e = absurd (clash (free i) e)
word_of (some d) chain i k v e = omega (arith, v.words, (inside chain i d k v e).1)

item_hash-lt : (hash : Hasher) (list_key k : Bytes) → item_hash hash list_key k < 2 ^ 64
unfolding parted_hash
item_hash-lt hash list_key k = (from_hash_parts (hash (make_item_key (ph_of hash list_key) k))).3

-- the full key and value of an item
abbrev pub full : Hasher → Bytes → Bytes → Bytes → ℕ → KvPair
full hash list_key k val i = (make_item_key (ph_of hash list_key) k, val ++ le_bytes 8 i)

-- the chain and the items agree, and the indices of the chain are machine words
pub record Leading (c : ListCells) : Type 0 where
  pub links : Linked c.chain c.item
  pub words : (i : ℕ) (k : Bytes) → c.chain i ≡ some k → i < 2 ^ 64

pub ListInv-Leading : {c : ListCells} → ListInv c → Leading c
ListInv-Leading {c} inv = record {
  links = inv.links;
  words = λ i k e. word_of c.desc c.chain i k inv.range e;
}

module _ {hash : Hasher} {list_key : Bytes} {c : ListCells} (lead : Leading c) where
  -- an entry of the map that passes the test is the item of the index
  only_item :
      {f : Bytes → Option Bytes} (i : ℕ) (k val q w : Bytes)
      → ListRep hash list_key f c
      → c.item k ≡ some (val, i)
      → f q ≡ some w
      → is_item_at (ph_of hash list_key) i (q, w) ≡ true
      → (q, w) ≡ full hash list_key k val i
  only_item {f} i k val q w r e at t =
      let ts = both_true (ends_with q (item_suffix ph)) (ends_with w (le_bytes 8 i)) t in
      let p = take (length q - length (item_suffix ph)) q in
      let key : q ≡ make_item_key ph p = ends_with-split q (item_suffix ph) ts.0 in
      named p (ends_with-split w (le_bytes 8 i) ts.1) key (sym (r.items p) ∙ ap f (sym key) ∙ at)
    where
      ph : PartedHash
      ph = ph_of hash list_key

      same :
          (p x : Bytes) (j : ℕ)
          → c.item p ≡ some (x, j)
          → x ++ le_bytes 8 j ≡ w
          → w ≡ take (length w - length (le_bytes 8 i)) w ++ le_bytes 8 i
          → q ≡ make_item_key ph p
          → (q, w) ≡ full hash list_key k val i
      same p x j ep ew tail key =
          let cut =
            suffix_cancel x (take (length w - length (le_bytes 8 i)) w) (le_bytes 8 j)
              (le_bytes 8 i) (omega (arith, length-le_bytes 8 i, length-le_bytes 8 j))
              (ew ∙ tail) in
          let at_j = lead.links.led p x j ep in
          let at_i = lead.links.led k val i e in
          let ji : j ≡ i = word_injective j i (lead.words j p at_j) (lead.words i k at_i) cut.1 in
          let pk : p ≡ k = some_injective (sym at_j ∙ ap c.chain ji ∙ at_i) in
          let xv : x ≡ val = some-left (sym ep ∙ ap c.item pk ∙ e) in
          ap₂ (λ a b. (a, b)) (key ∙ ap (make_item_key ph) pk)
            (sym ew ∙ ap₂ (λ a b. a ++ le_bytes 8 b) xv ji)

      named :
          (p : Bytes)
          → w ≡ take (length w - length (le_bytes 8 i)) w ++ le_bytes 8 i
          → q ≡ make_item_key ph p
          → stored (c.item p) ≡ some w
          → (q, w) ≡ full hash list_key k val i
      named p tail key st = elim (Option-cases (c.item p)) [
        | inl ep ↦ absurd (clash (ap stored ep) st)
        | inr ((x, j), ep) ↦ same p x j ep (some_injective (ap stored (sym ep) ∙ st)) tail key
      ]

-- what stands at an index: the item's hash, its full key and its full value
abbrev pub entry_of : Hasher → Bytes → Bytes → Option (Bytes × ℕ) → Option (PartedHash × KvPair)
entry_of hash list_key k none = none
entry_of hash list_key k (some (val, i)) =
    some (item_hash hash list_key k, full hash list_key k val i)

abbrev pub entry_under : Hasher → Bytes → ListCells → Option Bytes → Option (PartedHash × KvPair)
entry_under hash list_key c none = none
entry_under hash list_key c (some k) = entry_of hash list_key k (c.item k)

abbrev pub found_at : Hasher → Bytes → ListCells → ℕ → Option (PartedHash × KvPair)
found_at hash list_key c i = entry_under hash list_key c (c.chain i)

module _ {S : Type 0} {hash : Hasher} {config : InternalConfig} {hr : HashRoot S} {v : View S}
    (laws : IsHashMap hash config hr v) {list_key : Bytes} (fits : ListFits config list_key) where
  finds_entry :
      (c : ListCells) (i : ℕ) (k val : Bytes)
      → Leading c
      → c.item k ≡ some (val, i)
      → ListHolds laws.law fits {A = Option (PartedHash × KvPair)}
          (get_by_hash hash config hr (item_hash hash list_key k) >>= λ kvs.
            elim (find_item (ph_of hash list_key) i kvs) [
              | none ↦ pure none
              | some kv ↦ pure (some (item_hash hash list_key k, kv))
            ])
          c
          (some (item_hash hash list_key k, full hash list_key k val i))
          c
  unfolding get_by_hash
  finds_entry c i k val lead e = keeping_call (λ n s valid r.
      let b = laws.by_hash s valid (make_item_key (ph_of hash list_key) k) in
      let found =
        find_item_only (ph_of hash list_key) i (full hash list_key k val i) b.kvs
          (rw
            (
              ends_with-append k (item_suffix (ph_of hash list_key)),
              ends_with-append val (le_bytes 8 i),
            )
            refl)
          (λ q w m t. only_item lead i k val q w r e (b.sound q w m) t)
          (b.complete (make_item_key (ph_of hash list_key) k) (val ++ le_bytes 8 i) refl
            (r.items k ∙ ap stored e)) in
      kept_map refl r (Gives-bind _ b.gives (λ s'. rw found refl)))

  reads_hash :
      (h : PartedHash) → h < 2 ^ 64 → from_hash_bytes hash config hr (le_bytes 8 h) ≡ pure h
  reads_hash h lt = rw (length-le_bytes 8 h, of_le_bytes-le_bytes h lt) refl

  pub finds_at :
      (c : ListCells) (i : ℕ)
      → i < 2 ^ 64
      → Leading c
      → ListHolds laws.law fits
          (get_from_list_at_index hash config hr (ph_of hash list_key) i)
          c
          (found_at hash list_key c i)
          c
  unfolding get_from_list_at_index
  finds_at c i word lead = elim (Option-cases (c.chain i)) [
    | inl e ↦ Holds-bind _ (holds_get_chain laws.law fits c i word) (rw e (Holds-pure none c))
    | inr (k, e) ↦
        let there = lead.links.leads i k e in
        Holds-bind _ (holds_get_chain laws.law fits c i word) (
          rw (e, there.1, reads_hash (item_hash hash list_key k) (item_hash-lt hash list_key k))
            (Holds-bind _ (Holds-pure (item_hash hash list_key k) c)
              (finds_entry c i k there.0 lead there.1)))
  ]

  -- Over a root that keeps the contract of a map and of `get_by_hash`, from a valid state that has
  -- room for the insertions that the call makes, on a list whose descriptor, chain and items agree:
  -- `get_from_list_at_index` raises no error, returns the hash, the full key and the full value of
  -- the item that has the index, or nothing at a hole, and changes no key.
  pub Holds-get_from_list_at_index :
      (c : ListCells) (i : ℕ)
      → i < 2 ^ 64
      → ListInv c
      → ListHolds laws.law fits
          (get_from_list_at_index hash config hr (ph_of hash list_key) i)
          c
          (found_at hash list_key c i)
          c
  Holds-get_from_list_at_index c i word inv = finds_at c i word (ListInv-Leading inv)
