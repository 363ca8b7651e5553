-- ===== src/Tests/Store.antt =====
-- Uses of the theorems on the operations of the store, over a root that is a map.
use candystore.Base.{◌≡◌, refl, none, some, [], ◌∷◌, arith}
use candystore.Base.Outcome.{ok}
use candystore.Shard.Entry.{get_or_create}
use candystore.Shard.Mmap.{InternalConfig}
use candystore.Base.Maps.{Map, put, no_keys}
use candystore.Store.{Root, owned_set, owned_replace, owned_get_or_create, make_user_key}
use candystore.Store.Limits.{owned_set_refused}
use candystore.Store.Raw.{View, Gives, IsMap, replace_result, create_result}
use candystore.Store.Laws.{owned_replace-Gives, owned_get_or_create-Gives}
use candystore.Shard.Entry.Spec.{spec_status, spec_value}
use candystore.Base.Outcome.{err, entry_cannot_fit_in_shard}
use candystore.Shard.Entry.{replace}
use candystore.Tests.{hash, config, key, other, val, tiny}

-- a root that is a map
abbrev pub map_root : Root Map
map_root = record {
  get_in = λ ph k s. (ok (s k), s);
  remove_in = λ ph k s. (ok (s k), put k none s);
  insert_in = λ ph k v mode s. (ok (spec_status mode (s k)), put k (spec_value mode v (s k)) s);
}

abbrev pub map_view : View Map
map_view = record { Valid = λ n s. Unit; map = λ s. s }

pub map_root-IsMap : (c : InternalConfig) → IsMap hash c map_root map_view
map_root-IsMap c = record {
  gets = λ s valid k. record { result = refl; valid = tt; map = λ q. refl };
  removes = λ s valid k. record { result = refl; valid = tt; map = λ q. refl };
  inserts = λ s valid k v mode a b c. record { result = refl; valid = tt; map = λ q. refl };
}

abbrev one_key : Map
one_key = put (make_user_key key) (some (4 ∷ [])) no_keys

owned_replace-Gives_example :
    Gives map_view 0
      (owned_replace hash config map_root key val (some (4 ∷ [])))
      one_key
      (replace_result (some (4 ∷ [])) (one_key (make_user_key key)))
      (put
        (make_user_key key)
        (spec_value (replace (some (4 ∷ []))) val (one_key (make_user_key key)))
        one_key)
owned_replace-Gives_example =
    owned_replace-Gives (map_root-IsMap config) one_key tt key val (omega arith) (omega arith)
      (omega arith) (some (4 ∷ []))

owned_get_or_create-Gives_example :
    Gives map_view 0
      (owned_get_or_create hash config map_root other val)
      one_key
      (create_result val (one_key (make_user_key other)))
      (put
        (make_user_key other)
        (spec_value get_or_create val (one_key (make_user_key other)))
        one_key)
owned_get_or_create-Gives_example =
    owned_get_or_create-Gives (map_root-IsMap config) one_key tt other val (omega arith)
      (omega arith) (omega arith)

owned_set_refused_example :
    owned_set hash tiny map_root key val no_keys ≡ (err (entry_cannot_fit_in_shard 6 4), no_keys)
owned_set_refused_example =
    owned_set_refused hash tiny map_root no_keys key val (entry_cannot_fit_in_shard 6 4) refl
