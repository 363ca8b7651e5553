-- ===== src/Shard/Row/Descriptor.antt =====
-- The packed word of an entry gives back its three fields.
use candystore.Base.{ℕ, ◌+◌, ◌*◌, ◌%◌, ◌^◌, ◌<◌, ◌≡◌, bit_or, arith}
use candystore.Base.Bits.{bit_or_sum}
use candystore.Shard.Row.{pack, key_len, val_len, file_offset}

-- With lengths of 16 bits and an offset of 32 bits, the packed word reads back as the key's length,
-- the value's length and the offset, and fits 64 bits.
pub fields-pack :
    (klen vlen off : ℕ)
    → klen < 2 ^ 16
    → vlen < 2 ^ 16
    → off < 2 ^ 32
    → (key_len (pack klen vlen off) ≡ klen)
      × (val_len (pack klen vlen off) ≡ vlen)
      × (file_offset (pack klen vlen off) ≡ off)
      × (pack klen vlen off < 2 ^ 64)
unfolding pack
fields-pack klen vlen off hk hv ho =
    let high : (klen * 2 ^ 48) % 2 ^ 64 ≡ klen * 2 ^ 48 = omega arith in
    let low : (vlen * 2 ^ 32) % 2 ^ 64 ≡ vlen * 2 ^ 32 = omega arith in
    let lens : bit_or (klen * 2 ^ 48) (vlen * 2 ^ 32) ≡ (klen * 2 ^ 16 + vlen) * 2 ^ 32 =
      omega (arith, bit_or_sum 48 klen (vlen * 2 ^ 32) (omega arith)) in
    let all : bit_or ((klen * 2 ^ 16 + vlen) * 2 ^ 32) off ≡ (klen * 2 ^ 16 + vlen) * 2 ^ 32 + off =
      bit_or_sum 32 (klen * 2 ^ 16 + vlen) off ho in
    rw (high, low, lens, all) (omega arith)
