-- ===== src/Store/Raw.antt =====
-- The calls on full keys, over any root that keeps the contract of a map.
use candystore.Base.{
  ℕ, suc, ◌+◌, ◌≤◌, ◌≡◌, refl, sym, ap, ◌∙◌, Option, none, some, if◌then◌else◌, ltb_of_le,
  leb_of_le, subst, inl, inr, Bool-cases,
}
use candystore.Base.Bytes.{Bytes, length, bytes_eq}
use candystore.Base.Maps.{Map, put}
use candystore.Base.Outcome.{Exec, ok, ◌>>=◌}
use candystore.Hashing.{Hasher, parted_hash}
use candystore.Shard.Mmap.{InternalConfig}
use candystore.Shard.Entry.{InsertMode, set, replace, get_or_create}
use candystore.Shard.Entry.Spec.{spec_status, spec_value}
use candystore.Store.{
  Root, max_total_key_size, max_total_value_size, set_status, replace_status, get_or_create_status,
  SetStatus, set_created_new, set_prev_value, ReplaceStatus, prev_value, wrong_value,
  does_not_exist, GetOrCreateStatus, created_new, existing_value, insert_internal, set_raw,
  replace_raw, get_or_create_raw,
}

-- a state that is valid and has room for a number of insertions, and the map that it stands for
pub record View (S : Type 0) : Type 1 where
  pub Valid : ℕ → S → Type 0
  pub map : S → Map

-- from the state `s`, `m` returns `x`, and leaves a valid state that stands for the map `f` and has
-- room for `n` insertions
pub record Gives {S A : Type 0} (v : View S) (n : ℕ) (m : Exec S A) (s : S) (x : A) (f : Map)
    : Type 0 where
  pub result : (m s).0 ≡ ok x
  pub valid : v.Valid n (m s).1
  pub map : (q : Bytes) → v.map (m s).1 q ≡ f q

-- the contract of the root: a map, for entries within the limits; each insertion takes room
pub record IsMap {S : Type 0} (hash : Hasher) (config : InternalConfig) (root : Root S) (v : View S)
    : Type 0 where
  pub gets :
      {n : ℕ} (s : S)
      → v.Valid n s
      → (k : Bytes) → Gives v n (root.get_in (parted_hash hash k) k) s (v.map s k) (v.map s)
  pub removes :
      {n : ℕ} (s : S)
      → v.Valid n s
      → (k : Bytes)
      → Gives v n (root.remove_in (parted_hash hash k) k) s (v.map s k) (put k none (v.map s))
  pub inserts :
      {n : ℕ} (s : S)
      → v.Valid (suc n) s
      → (k val : Bytes) (mode : InsertMode) → length k ≤ max_total_key_size
      → length val ≤ max_total_value_size
      → length k + length val ≤ config.max_shard_size
      → Gives v n
          (root.insert_in (parted_hash hash k) k val mode)
          s
          (spec_status mode (v.map s k))
          (put k (spec_value mode val (v.map s k)) (v.map s))

abbrev pub set_result : Option Bytes → SetStatus
set_result none = set_created_new
set_result (some old) = set_prev_value old

abbrev pub replace_result : Option Bytes → Option Bytes → ReplaceStatus
replace_result expected none = does_not_exist
replace_result none (some old) = prev_value old
replace_result (some e) (some old) = if bytes_eq e old then prev_value old else wrong_value old

abbrev pub create_result : Bytes → Option Bytes → GetOrCreateStatus
create_result default_val none = created_new default_val
create_result default_val (some old) = existing_value old

pub Gives-bind :
    {S A B : Type 0} {v : View S} {n : ℕ} {m : Exec S A} (k : A → Exec S B) {s : S} {x : A} {y : B}
    {f : Map}
    → Gives v n m s x f
    → ((s' : S) → k x s' ≡ (ok y, s'))
    → Gives v n (m >>= k) s y f
unfolding ◌>>=◌
Gives-bind {v = v} {n} {m} k {s} {y = y} g e =
    let runs : (m >>= k) s ≡ (ok y, (m s).1) = rw g.result (e (m s).1) in
    record {
      result = ap (λ r. r.0) runs;
      valid = subst (λ r. v.Valid n r.1) (sym runs) g.valid;
      map = λ q. ap (λ r. v.map r.1 q) runs ∙ g.map q;
    }

-- The statuses that the source calls unreachable do not come.
pub set_told :
    {S : Type 0} (o : Option Bytes) (s : S)
    → set_status (spec_status set o) s ≡ (ok (set_result o), s)
set_told none s = refl
set_told (some old) s = refl

pub replace_told :
    {S : Type 0} (expected o : Option Bytes) (s : S)
    → replace_status (spec_status (replace expected) o) s ≡ (ok (replace_result expected o), s)
replace_told none none s = refl
replace_told (some e) none s = refl
replace_told none (some old) s = refl
replace_told (some e) (some old) s = elim (Bool-cases (bytes_eq e old)) [
  | inl t ↦ rw t refl
  | inr f ↦ rw f refl
]

pub create_told :
    {S : Type 0} (default_val : Bytes) (o : Option Bytes) (s : S)
    → get_or_create_status default_val (spec_status get_or_create o) s
      ≡ (ok (create_result default_val o), s)
create_told default_val none s = refl
create_told default_val (some old) s = refl

-- One call on a full key within the limits.
module _ {S : Type 0} {hash : Hasher} {config : InternalConfig} {root : Root S} {v : View S}
    (law : IsMap hash config root v) {n : ℕ} (s : S) (valid : v.Valid (suc n) s) (key val : Bytes)
    (key_fits : length key ≤ max_total_key_size) (val_fits : length val ≤ max_total_value_size)
    (entry_fits : length key + length val ≤ config.max_shard_size) where
  pub insert_internal-Gives :
      (mode : InsertMode)
      → Gives v n
          (insert_internal hash config root key val mode)
          s
          (spec_status mode (v.map s key))
          (put key (spec_value mode val (v.map s key)) (v.map s))
  unfolding insert_internal
  insert_internal-Gives mode =
      rw
        (
          leb_of_le (length key) max_total_key_size key_fits,
          leb_of_le (length val) max_total_value_size val_fits,
          ltb_of_le config.max_shard_size (length key + length val) entry_fits,
        )
        (law.inserts s valid key val mode key_fits val_fits entry_fits)

  pub set_raw-Gives :
      Gives v n
        (set_raw hash config root key val)
        s
        (set_result (v.map s key))
        (put key (some val) (v.map s))
  unfolding set_raw
  set_raw-Gives = Gives-bind _ (insert_internal-Gives set) (set_told (v.map s key))

  pub replace_raw-Gives :
      (expected : Option Bytes)
      → Gives v n
          (replace_raw hash config root key val expected)
          s
          (replace_result expected (v.map s key))
          (put key (spec_value (replace expected) val (v.map s key)) (v.map s))
  unfolding replace_raw
  replace_raw-Gives expected =
      Gives-bind _ (insert_internal-Gives (replace expected)) (replace_told expected (v.map s key))

  pub get_or_create_raw-Gives :
      Gives v n
        (get_or_create_raw hash config root key val)
        s
        (create_result val (v.map s key))
        (put key (spec_value get_or_create val (v.map s key)) (v.map s))
  unfolding get_or_create_raw
  get_or_create_raw-Gives =
      Gives-bind _ (insert_internal-Gives get_or_create) (create_told val (v.map s key))
