-- ===== src/Store/Limits.antt =====
-- The sizes that the store refuses before it asks its root.
use candystore.Base.{
  ℕ, ◌+◌, ◌≡◌, ap, Option, none, some, ltb, if◌then◌else◌, arith, ltb_of_le, ltb_of_lt, leb_of_le,
  leb_of_lt,
}
use candystore.Base.Bytes.{Bytes, length, length-append}
use candystore.Base.Outcome.{
  Error, Result, err, key_too_long, value_too_long, entry_cannot_fit_in_shard, ◌>>=◌,
}
use candystore.Hashing.{Hasher}
use candystore.Shard.Mmap.{InternalConfig}
use candystore.Store.{
  Root, user_namespace, max_total_key_size, max_total_value_size, max_key_size, max_value_size,
  SetStatus, ensure_sizes, insert_internal, set_raw, owned_set,
}
use native.Mathlib.Decide.{dec_lt}
use mathlib.Core.Option.{none-ne-some}

-- what the sizes of an entry lead to before the root is asked
abbrev pub size_error : ℕ → ℕ → ℕ → Option Error
size_error max klen vlen =
    if ltb max_key_size klen
    then some (key_too_long klen)
    else if ltb max_value_size vlen
    then some (value_too_long vlen)
    else if ltb max (klen + 1 + vlen)
    then some (entry_cannot_fit_in_shard (klen + 1 + vlen) max)
    else none

-- An entry whose key, value or sum of sizes is beyond its limit is refused by `set` with the error
-- of the first limit that it passes, and the root is not asked.
pub owned_set_refused :
    {S : Type 0} (hash : Hasher) (config : InternalConfig) (root : Root S) (s : S) (key val : Bytes)
    (e : Error)
    → size_error config.max_shard_size (length key) (length val) ≡ some e
    → owned_set hash config root key val s ≡ (err e, s)
unfolding owned_set set_raw insert_internal ensure_sizes ◌>>=◌
owned_set_refused {S} hash config root s key val e h = elim (dec_lt max_key_size (length key)) [
  | yes long ↦
      rw (leb_of_lt (length key) max_key_size long)
        (told (key_too_long (length key)) (rw (ltb_of_lt max_key_size (length key) long) at h))
  | no short ↦ elim (dec_lt max_value_size (length val)) [
    | yes long ↦
        rw
          (
            leb_of_le (length key) max_key_size (omega arith),
            leb_of_lt (length val) max_value_size long,
          )
          (told (value_too_long (length val)) (
            rw
              (
                ltb_of_le max_key_size (length key) (omega arith),
                ltb_of_lt max_value_size (length val) long,
              )
              at h))
    | no small ↦ elim (dec_lt config.max_shard_size (length key + 1 + length val)) [
      | yes big ↦
          rw
            (
              leb_of_le (length key) max_key_size (omega arith),
              leb_of_le (length val) max_value_size (omega arith),
              length-append key user_namespace,
              leb_of_le (length key + 1) max_total_key_size (omega arith),
              leb_of_le (length val) max_total_value_size (omega arith),
              ltb_of_lt config.max_shard_size (length key + 1 + length val) big,
            )
            (told (entry_cannot_fit_in_shard (length key + 1 + length val) config.max_shard_size) (
              rw
                (
                  ltb_of_le max_key_size (length key) (omega arith),
                  ltb_of_le max_value_size (length val) (omega arith),
                  ltb_of_lt config.max_shard_size (length key + 1 + length val) big,
                )
                at h))
      | no fits ↦ absurd (
          none-ne-some e (
            rw
              (
                ltb_of_le max_key_size (length key) (omega arith),
                ltb_of_le max_value_size (length val) (omega arith),
                ltb_of_le config.max_shard_size (length key + 1 + length val) (omega arith),
              )
              at h))
    ]
  ]
]
  where
    left : Error → Result SetStatus × S
    left x = (err x, s)

    told : (e' : Error) → some e' ≡ some e → left e' ≡ left e
    told e' p = ap (λ o. elim o [ none ↦ left e' | some x ↦ left x ]) p
