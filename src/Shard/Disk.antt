-- ===== src/Shard/Disk.antt =====
-- The positioned reads and writes of `std::fs::File`, past the header of a shard file: an offset
-- here is the source's offset less `HEADER_SIZE`. A write beyond the end extends the file with
-- zeros; a read beyond the end fails. Other I/O errors are not modelled.
pub mod Laws
use candystore.Base.{
  ℕ, zero, suc, ◌+◌, ◌-◌, max, Bool, List, [], ◌∷◌, ◌++◌, ltb, leb, ◌&&◌, if◌then◌else◌,
}
use candystore.Base.Bytes.{Bytes, length}
use candystore.Base.Outcome.{Result, ok, err, unexpected_eof}

pub record File : Type 0 where
  pub len : ℕ
  pub byte : ℕ → ℕ

abbrev pub nth : Bytes → ℕ → ℕ
nth [] i = 0
nth (x ∷ xs) zero = x
nth (x ∷ xs) (suc i) = nth xs i

-- `n` bytes from `off` on
pub bytes_at : (ℕ → ℕ) → ℕ → ℕ → Bytes
bytes_at byte zero off = []
bytes_at byte (suc n) off = byte off ∷ bytes_at byte n (off + 1)

-- `File::read_exact_at`, for a buffer of `n` bytes
unfoldable pub read_exact_at : File → ℕ → ℕ → Result Bytes
unfolding bytes_at
read_exact_at f n off =
    if leb (off + n) f.len then ok (bytes_at f.byte n off) else err unexpected_eof

-- `File::write_all_at`
unfoldable pub write_all_at : File → Bytes → ℕ → File
write_all_at f buf off = record {
  len = max f.len (off + length buf);
  byte = λ i.
      if leb off i && ltb i (off + length buf)
      then nth buf (i - off)
      else if ltb i f.len
      then f.byte i
      else 0;
}
