-- ===== src/Lists/Stored.antt =====
-- The bytes of an item: a value, and behind it an index.
use candystore.Base.{ℕ, ◌+◌, ◌-◌, ◌^◌, ◌<◌, ◌≡◌, refl, ◌++◌, ltb_of_le, arith}
use candystore.Base.Bytes.{Bytes, length, take-append, drop-append}
use candystore.Base.Word.{le_bytes, wrapping_sub}
use candystore.Base.Outcome.{pure}
use candystore.Lists.{without_index, index_bytes}
use candystore.Lists.Calls.{length-stored}

pub index_bytes-stored :
    {S : Type 0} (val : Bytes) (i : ℕ)
    → index_bytes {S = S} (val ++ le_bytes 8 i) ≡ pure (le_bytes 8 i)
index_bytes-stored val i =
    rw
      (
        ltb_of_le (length (val ++ le_bytes 8 i)) 8 (omega (arith, length-stored val i)),
        drop-append (length (val ++ le_bytes 8 i) - 8) val (le_bytes 8 i)
            (omega (arith, length-stored val i)),
      )
      refl

pub without_index-stored :
    (val : Bytes) (i : ℕ) → length val + 8 < 2 ^ 64 → without_index (val ++ le_bytes 8 i) ≡ val
without_index-stored val i small =
    take-append (wrapping_sub (length (val ++ le_bytes 8 i)) 8) val (le_bytes 8 i)
      (omega (arith, length-stored val i, small))
