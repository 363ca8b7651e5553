-- ===== src/Hashing/Laws.antt =====
-- What the parts of a hash are, for every output of the hash function.
use candystore.Base.{ℕ, ◌+◌, ◌*◌, ◌/◌, ◌%◌, ◌^◌, ◌<◌, ◌≡◌, ◌≢◌, bit_or, arith}
use candystore.Base.Bytes.{Bytes}
use candystore.Base.Bits.{bit_or_sum}
use candystore.Hashing.{
  Hash128, Hasher, num_rows, invalid_sig, shard_selector, row_selector, signature, pick_sig,
  from_hash, parted_hash,
}

pick_sig-lt : (h : Hash128) → pick_sig h < 2 ^ 32
unfolding pick_sig
pick_sig-lt h = ground arith

pick_sig-ne_invalid : (h : Hash128) → pick_sig h ≢ invalid_sig
unfolding pick_sig
pick_sig-ne_invalid h = ground arith

module _ (h : Hash128) where
  shard : ℕ
  shard = (h.h1 / 2 ^ 48) % 2 ^ 16

  row : ℕ
  row = (h.h1 / 2 ^ 32) % 2 ^ 16

  from_hash_fields : from_hash h ≡ (shard * 2 ^ 16 + row) * 2 ^ 32 + pick_sig h
  unfolding from_hash shard row
  from_hash_fields =
      let joined : bit_or (shard * 2 ^ 48) (row * 2 ^ 32) ≡ (shard * 2 ^ 16 + row) * 2 ^ 32 =
        omega (arith, bit_or_sum 48 shard (row * 2 ^ 32) (omega arith)) in
      rw joined (bit_or_sum 32 (shard * 2 ^ 16 + row) (pick_sig h) (pick_sig-lt h))

  -- The hash keeps the two selectors of `h1`, fits 64 bits, and is never the invalid signature.
  pub from_hash_parts :
      (shard_selector (from_hash h) ≡ (h.h1 / 2 ^ 48) % 2 ^ 16)
      × (row_selector (from_hash h) ≡ ((h.h1 / 2 ^ 32) % 2 ^ 16) % num_rows)
      × (signature (from_hash h) ≢ invalid_sig)
      × (from_hash h < 2 ^ 64)
  unfolding shard_selector row_selector signature shard row
  from_hash_parts =
      let small = pick_sig-lt h in
      let real = pick_sig-ne_invalid h in
      let e = from_hash_fields in (omega arith, omega arith, omega arith, omega arith)

pub signature-parted_hash :
    (hash : Hasher) (k : Bytes) → signature (parted_hash hash k) ≢ invalid_sig
unfolding parted_hash
signature-parted_hash hash k = (from_hash_parts (hash k)).2

pub row_selector-lt : (ph : ℕ) → row_selector ph < num_rows
unfolding row_selector
row_selector-lt ph = omega arith
