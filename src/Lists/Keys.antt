-- ===== src/Lists/Keys.antt =====
-- The keys of a list do not meet.
use candystore.Base.{ℕ, ◌+◌, ◌^◌, ◌<◌, ◌≡◌, ◌≢◌, refl, sym, ap, ◌∙◌, [], ◌∷◌, ◌++◌, arith}
use candystore.Base.Bytes.{Bytes, length, length-append, take, drop, take-append, drop-append}
use candystore.Base.Word.{le_bytes, of_le_bytes, length-le_bytes, of_le_bytes-le_bytes}
use candystore.Hashing.{PartedHash}
use candystore.Lists.{make_list_key, make_item_key, chain_key, item_suffix}
use mathlib.Core.List.{append_assoc}

-- the last byte, which is the namespace
abbrev last_byte : Bytes → ℕ
last_byte [] = 0
last_byte (x ∷ []) = x
last_byte (x ∷ y ∷ xs) = last_byte (y ∷ xs)

last_byte-snoc : (xs : Bytes) (x : ℕ) → last_byte (xs ++ (x ∷ [])) ≡ x
last_byte-snoc [] x = refl
last_byte-snoc (y ∷ []) x = refl
last_byte-snoc (y ∷ z ∷ xs) x = last_byte-snoc (z ∷ xs) x

append_cancel : (xs ys zs : Bytes) → xs ++ ys ≡ xs ++ zs → ys ≡ zs
append_cancel xs ys zs e =
    sym (drop-append (length xs) xs ys refl)
    ∙ ap (drop (length xs)) e
    ∙ drop-append (length xs) xs zs refl

last-item_key : (ph : PartedHash) (k : Bytes) → last_byte (make_item_key ph k) ≡ 4
last-item_key ph k =
    ap last_byte (sym (append_assoc k (le_bytes 8 ph) (4 ∷ [])))
    ∙ last_byte-snoc (k ++ le_bytes 8 ph) 4

last-chain_key : (ph : PartedHash) (i : ℕ) → last_byte (chain_key ph i) ≡ 5
last-chain_key ph i =
    ap last_byte (sym (append_assoc (le_bytes 8 ph) (le_bytes 8 i) (5 ∷ [])))
    ∙ last_byte-snoc (le_bytes 8 ph ++ le_bytes 8 i) 5

pub chain_key-ne-list_key :
    (ph : PartedHash) (i : ℕ) (key : Bytes) → chain_key ph i ≢ make_list_key key
chain_key-ne-list_key ph i key e =
    omega (arith, last-chain_key ph i, last_byte-snoc key 3, ap last_byte e)

pub item_key-ne-list_key :
    (ph : PartedHash) (k key : Bytes) → make_item_key ph k ≢ make_list_key key
item_key-ne-list_key ph k key e =
    omega (arith, last-item_key ph k, last_byte-snoc key 3, ap last_byte e)

pub item_key-ne-chain_key :
    (ph : PartedHash) (k : Bytes) (i : ℕ) → make_item_key ph k ≢ chain_key ph i
item_key-ne-chain_key ph k i e =
    omega (arith, last-item_key ph k, last-chain_key ph i, ap last_byte e)

pub item_key_injective :
    (ph : PartedHash) (k q : Bytes) → make_item_key ph k ≡ make_item_key ph q → k ≡ q
item_key_injective ph k q e =
    sym (take-append (length k) k (item_suffix ph) refl)
    ∙ ap (take (length k)) e
    ∙ take-append (length k) q (item_suffix ph) (
        omega
          (arith, ap length e, length-append k (item_suffix ph), length-append q (item_suffix ph)))

pub word_injective : (i j : ℕ) → i < 2 ^ 64 → j < 2 ^ 64 → le_bytes 8 i ≡ le_bytes 8 j → i ≡ j
word_injective i j hi hj e =
    sym (of_le_bytes-le_bytes i hi) ∙ ap of_le_bytes e ∙ of_le_bytes-le_bytes j hj

pub chain_key_injective :
    (ph : PartedHash) (i j : ℕ) → i < 2 ^ 64 → j < 2 ^ 64 → chain_key ph i ≡ chain_key ph j → i ≡ j
chain_key_injective ph i j hi hj e = word_injective i j hi hj (
    sym (take-append 8 (le_bytes 8 i) (5 ∷ []) (sym (length-le_bytes 8 i)))
    ∙ ap (take 8)
        (append_cancel (le_bytes 8 ph) (le_bytes 8 i ++ (5 ∷ [])) (le_bytes 8 j ++ (5 ∷ [])) e)
    ∙ take-append 8 (le_bytes 8 j) (5 ∷ []) (sym (length-le_bytes 8 j)))

pub length-list_key : (key : Bytes) → length (make_list_key key) ≡ length key + 1
length-list_key key = length-append key (3 ∷ [])

pub length-item_key : (ph : PartedHash) (k : Bytes) → length (make_item_key ph k) ≡ length k + 9
length-item_key ph k = omega (
  arith,
  length-append k (item_suffix ph),
  length-append (le_bytes 8 ph) (4 ∷ []),
  length-le_bytes 8 ph,
)

pub length-chain_key : (ph : PartedHash) (i : ℕ) → length (chain_key ph i) ≡ 17
length-chain_key ph i = omega (
  arith,
  length-append (le_bytes 8 ph) (le_bytes 8 i ++ (5 ∷ [])),
  length-append (le_bytes 8 i) (5 ∷ []),
  length-le_bytes 8 ph,
  length-le_bytes 8 i,
)
