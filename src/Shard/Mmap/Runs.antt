-- ===== src/Shard/Mmap/Runs.antt =====
-- Total correctness of an action on one file: from the file `f` it returns `x`, without an error,
-- and leaves the file `g`, whatever the statistics are.
use candystore.Base.{ℕ, ◌+◌, ◌≤◌, ◌≡◌, refl, sym, ap, arith}
use candystore.Base.Bytes.{Bytes, take-append, drop-append, take_all}
use candystore.Base.Outcome.{Exec, ok, pure, gets, ◌>>=◌, ◌>>◌}
use candystore.Stats.{InternalStats, add_read}
use native.Mathlib.Nat.{le_of_eq}
use candystore.Shard.Disk.{File, bytes_at, read_exact_at}
use candystore.Shard.Disk.Laws.{length-bytes_at, bytes_at-add}
use candystore.Shard.Row.{key_len, val_len, file_offset}
use candystore.Shard.Mmap.{MmapFile, Io, read_kv, on_stats, on_mmap, count_stats}

pub record Runs {A : Type 0} (m : Exec Io A) (f : MmapFile) (x : A) (g : MmapFile) : Type 0 where
  pub at : (s : Io) → s.mmap ≡ f → ((m s).0 ≡ ok x) × ((m s).1.mmap ≡ g)

pub Runs-pure : {A : Type 0} (x : A) (f : MmapFile) → Runs (pure x) f x f
Runs-pure x f = record { at = λ s e. (refl, e) }

pub Runs-bind :
    {A B : Type 0} {m : Exec Io A} (k : A → Exec Io B) {f g h : MmapFile} {x : A} {y : B}
    → Runs m f x g
    → Runs (k x) g y h
    → Runs (m >>= k) f y h
unfolding ◌>>=◌
Runs-bind {m} k rm rk = record {
  at = λ s e. let (result, left) = rm.at s e in rw result (rk.at (m s).1 left);
}

pub Runs-gets : (f : MmapFile) → Runs (gets (λ s. s.mmap)) f f f
Runs-gets f = record { at = λ s e. (ap ok e, e) }

pub Runs-on_mmap : (c : MmapFile → MmapFile) (f : MmapFile) → Runs (on_mmap c) f tt (c f)
Runs-on_mmap c f = record { at = λ s e. (refl, ap c e) }

-- the key and the value that a descriptor points at
abbrev pub key_at : File → ℕ → Bytes
key_at f d = bytes_at f.byte (key_len d) (file_offset d)

abbrev pub val_at : File → ℕ → Bytes
val_at f d = bytes_at f.byte (val_len d) (file_offset d + key_len d)

read_exact_at-ok :
    (f : File) (n off : ℕ) → off + n ≤ f.len → read_exact_at f n off ≡ ok (bytes_at f.byte n off)
unfolding read_exact_at
read_exact_at-ok f n off h = ground arith

-- A descriptor whose area lies in the file reads as its key and its value, in one read.
pub read_kv-ok :
    (file : File) (d : ℕ) (stats : InternalStats)
    → file_offset d + (key_len d + val_len d) ≤ file.len
    → read_kv file d stats
      ≡ (ok (key_at file d, val_at file d), add_read (key_len d + val_len d) stats)
unfolding read_kv
read_kv-ok file d stats fits =
    let n = key_len d in
    let k = key_at file d in
    let v = val_at file d in
    rw (
      read_exact_at-ok file (key_len d + val_len d) (file_offset d) fits,
      length-bytes_at file.byte (key_len d + val_len d) (file_offset d),
      bytes_at-add file.byte (key_len d) (val_len d) (file_offset d),
      take-append n k v (sym (length-bytes_at file.byte (key_len d) (file_offset d))),
      drop-append n k v (sym (length-bytes_at file.byte (key_len d) (file_offset d))),
      take_all (val_len d) v
          (le_of_eq (length-bytes_at file.byte (val_len d) (file_offset d + key_len d))),
    )

pub Runs-read_kv :
    (file : File) (d : ℕ) (f : MmapFile)
    → file_offset d + (key_len d + val_len d) ≤ file.len
    → Runs (on_stats (read_kv file d)) f (key_at file d, val_at file d) f
Runs-read_kv file d f fits = record { at = λ s e. rw (read_kv-ok file d s.stats fits) (refl, e) }

pub Runs-count_stats :
    (c : InternalStats → InternalStats) (f : MmapFile) → Runs (count_stats c) f tt f
Runs-count_stats c f = record { at = λ s e. (refl, e) }

-- a step that changes the file or the statistics, and what follows it
module _ {B : Type 0} {k : Exec Io B} {f g : MmapFile} {y : B} where
  pub mmap_then : (c : MmapFile → MmapFile) → Runs k (c f) y g → Runs (on_mmap c >> k) f y g
  mmap_then c rest = Runs-bind _ (Runs-on_mmap c f) rest

  pub stats_then :
      (c : InternalStats → InternalStats) → Runs k f y g → Runs (count_stats c >> k) f y g
  stats_then c rest = Runs-bind _ (Runs-count_stats c f) rest
