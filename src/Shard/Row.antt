-- ===== src/Shard/Row.antt =====
-- `ShardRow` of src/shard.rs: two arrays of `ROW_WIDTH` cells, and the search for a signature.
pub mod Descriptor
use candystore.Base.{ℕ, ◌+◌, ◌-◌, ◌*◌, ◌/◌, ◌%◌, ◌^◌, Option, ◌==◌, bit_or}
use candystore.Base.Search.{position}
use candystore.Hashing.{row_width}

pub record ShardRow : Type 0 where
  pub signatures : ℕ → ℕ
  pub offsets_and_sizes : ℕ → ℕ

-- a zeroed row of a new file
abbrev pub empty_row : ShardRow
empty_row = record { signatures = λ _. 0; offsets_and_sizes = λ _. 0 }

-- `ShardRow::lookup`: the index found; the caller goes on from the next one
unfoldable pub lookup : ShardRow → ℕ → ℕ → Option ℕ
lookup row sig start_idx = position (λ i. row.signatures i == sig) (row_width - start_idx) start_idx

-- `x << k` on `u64`
abbrev pub shl : ℕ → ℕ → ℕ
shl x k = (x * 2 ^ k) % 2 ^ 64

-- `(klen << 48) | (vlen << 32) | write_offset`
unfoldable pub pack : ℕ → ℕ → ℕ → ℕ
pack klen vlen offset = bit_or (bit_or (shl klen 48) (shl vlen 32)) offset

-- the three fields, as `_read_kv` takes them apart
abbrev pub key_len : ℕ → ℕ
key_len d = d / 2 ^ 48

abbrev pub val_len : ℕ → ℕ
val_len d = (d / 2 ^ 32) % 2 ^ 16

abbrev pub file_offset : ℕ → ℕ
file_offset d = d % 2 ^ 32
