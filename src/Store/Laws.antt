-- ===== src/Store/Laws.antt =====
-- The store's operations over any root that keeps the contract of a map.
use candystore.Base.{ℕ, suc, ◌+◌, ◌≤◌, ◌≡◌, refl, sym, ap, ◌∙◌, Option, some, [], ◌∷◌, arith, subst}
use candystore.Base.Bytes.{Bytes, length, length-append}
use candystore.Base.Maps.{Map, put}
use candystore.Base.Outcome.{Exec, ok, ◌>>=◌, ◌>>◌}
use candystore.Hashing.{Hasher}
use candystore.Shard.Mmap.{InternalConfig}
use candystore.Shard.Entry.{replace, get_or_create}
use candystore.Shard.Entry.Spec.{spec_value}
use candystore.Store.{
  Root, max_total_key_size, max_total_value_size, max_key_size, max_value_size, make_user_key,
  ensure_sizes, owned_set, owned_replace, owned_get_or_create,
}
use candystore.Store.Raw.{
  View, Gives, IsMap, set_result, replace_result, create_result, set_raw-Gives, replace_raw-Gives,
  get_or_create_raw-Gives,
}

Gives-after :
    {S A B : Type 0} {v : View S} {n : ℕ} (m : Exec S A) {k : Exec S B} {s : S} {x : A} {y : B}
    {f : Map}
    → m s ≡ (ok x, s)
    → Gives v n k s y f
    → Gives v n (m >> k) s y f
unfolding ◌>>=◌
Gives-after {v = v} {n} m {k} {s} e g =
    let runs : (m >> k) s ≡ k s = rw e refl in
    record {
      result = ap (λ r. r.0) runs ∙ g.result;
      valid = subst (λ r. v.Valid n r.1) (sym runs) g.valid;
      map = λ q. ap (λ r. v.map r.1 q) runs ∙ g.map q;
    }

module _ {S : Type 0} {hash : Hasher} {config : InternalConfig} {root : Root S} {v : View S}
    (law : IsMap hash config root v) {n : ℕ} (s : S) (valid : v.Valid (suc n) s) (key val : Bytes)
    (key_fits : length key ≤ max_key_size) (val_fits : length val ≤ max_value_size)
    (entry_fits : length key + 1 + length val ≤ config.max_shard_size) where
  abbrev old : Option Bytes
  old = v.map s (make_user_key key)

  user_key : length (make_user_key key) ≡ length key + 1
  user_key = length-append key (1 ∷ [])

  checked : ensure_sizes key val s ≡ (ok tt, s)
  unfolding ensure_sizes
  checked = ground (arith, key_fits, val_fits)

  short : length (make_user_key key) ≤ max_total_key_size
  short = omega (arith, user_key, key_fits)

  small : length val ≤ max_total_value_size
  small = omega (arith, val_fits)

  fits : length (make_user_key key) + length val ≤ config.max_shard_size
  fits = omega (arith, user_key, entry_fits)

  -- Over a root that keeps the contract of a map, from a valid state that has room for the
  -- insertions that the call makes, within the limits: `set` puts the value under the user's key,
  -- changes no other key, and tells whether there was a value, and which.
  pub owned_set-Gives :
      Gives v n
        (owned_set hash config root key val)
        s
        (set_result old)
        (put (make_user_key key) (some val) (v.map s))
  unfolding owned_set
  owned_set-Gives =
      Gives-after _ checked (set_raw-Gives law s valid (make_user_key key) val short small fits)

  -- Over a root that keeps the contract of a map, from a valid state that has room for the
  -- insertions that the call makes, within the limits: `replace` changes the key if it has a value,
  -- and the expected one if one is given; it changes no other key, and tells what it found.
  pub owned_replace-Gives :
      (expected : Option Bytes)
      → Gives v n
          (owned_replace hash config root key val expected)
          s
          (replace_result expected old)
          (put (make_user_key key) (spec_value (replace expected) val old) (v.map s))
  unfolding owned_replace
  owned_replace-Gives expected =
      Gives-after _ checked
        (replace_raw-Gives law s valid (make_user_key key) val short small fits expected)

  -- Over a root that keeps the contract of a map, from a valid state that has room for the
  -- insertions that the call makes, within the limits: `get_or_create` gives the value that the key
  -- has, or else puts the default there; it changes no other key.
  pub owned_get_or_create-Gives :
      Gives v n
        (owned_get_or_create hash config root key val)
        s
        (create_result val old)
        (put (make_user_key key) (spec_value get_or_create val old) (v.map s))
  unfolding owned_get_or_create
  owned_get_or_create-Gives =
      Gives-after _ checked
        (get_or_create_raw-Gives law s valid (make_user_key key) val short small fits)
