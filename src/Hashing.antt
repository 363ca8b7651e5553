-- ===== src/Hashing.antt =====
-- src/hashing.rs: the 64-bit hash that selects the shard, the row and the signature of a key.
-- `SipHasher24` is a parameter: a function from the seed's hashed bytes to two 64-bit words.
pub mod Laws
use candystore.Base.{ℕ, ◌+◌, ◌*◌, ◌/◌, ◌%◌, ◌^◌, ◌==◌, if◌then◌else◌, bit_or}
use candystore.Base.Bytes.{Bytes}

-- `Hash128` of the siphasher crate
pub record Hash128 : Type 0 where
  pub h1 : ℕ
  pub h2 : ℕ

-- `SipHasher24::new_with_key(&seed).hash`, for the seed of the configuration
abbrev pub Hasher : Type 0
Hasher = Bytes → Hash128

-- `NUM_ROWS` and `ROW_WIDTH` of src/shard.rs
abbrev pub num_rows : ℕ
num_rows = 64

abbrev pub row_width : ℕ
row_width = 512

abbrev pub invalid_sig : ℕ
invalid_sig = 0

-- the newtype over `u64`
abbrev pub PartedHash : Type 0
PartedHash = ℕ

-- `(self.0 >> 48) & 0xffff`
unfoldable pub shard_selector : PartedHash → ℕ
shard_selector ph = (ph / 2 ^ 48) % 2 ^ 16

-- `((self.0 >> 32) as u16) as usize % NUM_ROWS`
unfoldable pub row_selector : PartedHash → ℕ
row_selector ph = ((ph / 2 ^ 32) % 2 ^ 16) % num_rows

-- `self.0 as u32`
unfoldable pub signature : PartedHash → ℕ
signature ph = ph % 2 ^ 32

-- the three fallbacks for a zero signature
unfoldable pub pick_sig : Hash128 → ℕ
pick_sig h =
    if h.h1 % 2 ^ 32 == invalid_sig
    then (if h.h2 % 2 ^ 32 == invalid_sig
        then (if (h.h2 / 2 ^ 32) % 2 ^ 32 == invalid_sig
            then 0x6052_c9b7
            else (h.h2 / 2 ^ 32) % 2 ^ 32)
        else h.h2 % 2 ^ 32)
    else h.h1 % 2 ^ 32

-- `h1 & 0xffff_0000_0000_0000` and `h1 & 0x0000_ffff_0000_0000` keep the bits in place
unfoldable pub from_hash : Hash128 → PartedHash
unfolding pick_sig
from_hash h =
    let shard = ((h.h1 / 2 ^ 48) % 2 ^ 16) * 2 ^ 48 in
    let row = ((h.h1 / 2 ^ 32) % 2 ^ 16) * 2 ^ 32 in bit_or (bit_or shard row) (pick_sig h)

-- `PartedHash::new`
unfoldable pub parted_hash : Hasher → Bytes → PartedHash
parted_hash hash buf = from_hash (hash buf)
