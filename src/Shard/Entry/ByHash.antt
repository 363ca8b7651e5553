-- ===== src/Shard/Entry/ByHash.antt =====
-- `get_by_hash` on a row: the entries whose signature is that of the hash.
use candystore.Base.{
  ℕ, zero, suc, ◌+◌, ◌-◌, ◌≤◌, ◌<◌, ◌≡◌, sym, ap, subst, ◌∙◌, Bool, true, false, none, some, List,
  [], ◌∷◌, ◌==◌, inl, inr, Option-cases, arith, ==_iff,
}
use candystore.Base.Bytes.{Bytes}
use candystore.Base.Search.{position-IsFirst, position-NoneIn}
use candystore.Base.Outcome.{pure}
use candystore.Hashing.{Hasher, parted_hash, signature, row_selector, row_width}
use candystore.Hashing.Laws.{signature-parted_hash}
use candystore.Shard.Row.{ShardRow, lookup}
use candystore.Shard.Mmap.{MmapFile, KvPair}
use candystore.Shard.Mmap.Runs.{
  Runs, Runs-pure, Runs-bind, Runs-gets, Runs-read_kv, Runs-count_stats, stats_then, key_at, val_at,
}
use candystore.Shard.Mmap.Extends.{IsBacked}
use candystore.Shard.Entry.Model.{
  Used, RowInv, has_key, has_key-intro, cell_of, cell_of-IsCellOf, value_of, view_row,
}
use candystore.Shard.Entry.{collect, collected, seek_fuel, get_by_hash_in_row, positive_lookup}
use mathlib.Core.Bool.{false≢true}
use mathlib.Core.List.{Memᴰ}
use mathlib.Core.List.Memᴰ
use mathlib.Core.Option.{some-injective}
use mathlib.Core.Path.{ap₂}
use native.Mathlib.Decide.{ℕ_discrete, dec_lt}

abbrev entry : MmapFile → ShardRow → ℕ → KvPair
entry m row i = (key_at m.file (row.offsets_and_sizes i), val_at m.file (row.offsets_and_sizes i))

-- the entries of the cells from `start` on that have the signature
record Gathered (m : MmapFile) (row : ShardRow) (sig start : ℕ) (kvs : List KvPair) : Type 0 where
  pub sound :
      (k w : Bytes)
      → Memᴰ (k, w) kvs
      → (i : ℕ) × (i < row_width) × (row.signatures i ≡ sig) × ((k, w) ≡ entry m row i)
  pub complete :
      (i : ℕ) → start ≤ i → i < row_width → row.signatures i ≡ sig → Memᴰ (entry m row i) kvs

counted :
    (first_time : Bool) (f : MmapFile)
    → Runs (elim first_time [ true ↦ positive_lookup | false ↦ pure tt ]) f tt f
counted true f = Runs-count_stats _ f
counted false f = Runs-pure tt f

Runs-collected : (kvs : List KvPair) (f : MmapFile) → Runs (collected kvs) f kvs f
Runs-collected [] f = stats_then _ (Runs-pure [] f)
Runs-collected (kv ∷ kvs) f = Runs-pure (kv ∷ kvs) f

module _ {hash : Hasher} {m : MmapFile} {r : ℕ} {row : ShardRow} (b : IsBacked m)
    (inv : RowInv hash m r row) where
  -- a cell in use is what the row reads under its key
  view_row-Used :
      (k : Bytes) (i : ℕ)
      → i < row_width
      → Used row i
      → k ≡ key_at m.file (row.offsets_and_sizes i)
      → view_row m.file row k ≡ some (val_at m.file (row.offsets_and_sizes i))
  unfolding view_row
  view_row-Used k i lt used keyed = elim (Option-cases (cell_of m.file row k)) [
    | inl e ↦ absurd (missed e)
    | inr (j, e) ↦
        let c = cell_of-IsCellOf m.file row k j e in
        let same = inv.unique j i c.below lt c.used used (sym c.keyed ∙ keyed) in
        ap (value_of m.file row) (e ∙ ap some same)
  ]
    where
      missed : cell_of m.file row k ≡ none → ⊥
      missed e = false≢true (
          sym (position-NoneIn (has_key m.file row k) row_width 0 e i (omega arith) (omega arith))
          ∙ has_key-intro m.file row k i used keyed)

  module _ (sig : ℕ) (Used-sig : (i : ℕ) → row.signatures i ≡ sig → Used row i) where
    -- With more fuel than cells left, the loop returns the entries that have the signature.
    Runs-collect :
        (fuel start : ℕ) (first_time : Bool) (f : MmapFile)
        → start ≤ row_width
        → row_width - start < fuel
        → (kvs : List KvPair) × Runs (collect fuel m row sig start first_time) f kvs f
          × Gathered m row sig start kvs
    unfolding collect lookup
    Runs-collect zero start first_time f le lt = absurd (omega arith)
    Runs-collect (suc fuel) start first_time f le lt = elim (Option-cases (lookup row sig start)) [
      | inl e ↦
          let none_in =
            position-NoneIn (λ i. row.signatures i == sig) (row_width - start) start e in
          (
            [],
            rw (e, collect) (Runs-pure [] f),
            record {
              sound = λ k w x. absurd (Memᴰ.not-nil x);
              complete = λ i lo hi s.
                  absurd (false≢true (sym (none_in i lo (omega arith)) ∙ (==_iff _ _).1 s));
            },
          )
      | inr (idx, e) ↦
          let first =
            position-IsFirst (λ i. row.signatures i == sig) (row_width - start) start idx e in
          let in_row : idx < row_width = omega (arith, first.below) in
          let signed : row.signatures idx ≡ sig = (==_iff _ _).0 first.holds in
          let c = inv.cells idx in_row (Used-sig idx signed) in
          let read = Runs-read_kv m.file (row.offsets_and_sizes idx) f (omega (arith, c.fits)) in
          let (kvs, rest, g) =
            Runs-collect fuel (idx + 1) false f (omega arith) (omega (arith, first.from)) in
          (
            entry m row idx ∷ kvs,
            rw (e, collect)
                (Runs-bind _ read
                  (Runs-bind _ (counted first_time f) (Runs-bind _ rest (Runs-pure _ f)))),
            record {
              sound = λ k w x. elim (Memᴰ.cases_cons x) [
                | inl here ↦ (idx, in_row, signed, here)
                | inr there ↦ g.sound k w there
              ];
              complete = λ i lo hi s. elim (dec_lt idx i) [
                | yes later ↦ Memᴰ.tail (g.complete i (omega arith) hi s)
                | no early ↦ elim (ℕ_discrete i idx) [
                  | yes same ↦ Memᴰ.head (ap (entry m row) same)
                  | no ne ↦
                      absurd (false≢true (sym (first.before i lo (omega arith)) ∙ (==_iff _ _).1 s))
                ]
              ];
            },
          )
    ]

-- the entries of a hash in a row
pub record RowEntries (hash : Hasher) (m : MmapFile) (r : ℕ) (key : Bytes) (kvs : List KvPair)
    : Type 0 where
  pub sound :
      (k w : Bytes)
      → Memᴰ (k, w) kvs
      → (row_selector (parted_hash hash k) ≡ r) × (view_row m.file (m.rows r) k ≡ some w)
  pub complete :
      (k w : Bytes)
      → parted_hash hash k ≡ parted_hash hash key
      → view_row m.file (m.rows r) k ≡ some w
      → Memᴰ (k, w) kvs

module _ {hash : Hasher} {m : MmapFile} {r : ℕ} (b : IsBacked m) (inv : RowInv hash m r (m.rows r))
    (key : Bytes) where
  sig : ℕ
  sig = signature (parted_hash hash key)

  Used-sig : (i : ℕ) → (m.rows r).signatures i ≡ sig → Used (m.rows r) i
  unfolding sig
  Used-sig i s e = signature-parted_hash hash key (sym s ∙ e)

  -- From a backed file whose row is valid, `get_by_hash` returns entries of the row, all those of
  -- the hash among them, without an error, and leaves the file alone.
  pub Runs-get_by_hash_in_row :
      (kvs : List KvPair) × Runs (get_by_hash_in_row r (parted_hash hash key)) m kvs m
      × RowEntries hash m r key kvs
  unfolding get_by_hash_in_row sig view_row
  Runs-get_by_hash_in_row =
      let (kvs, runs, g) =
        Runs-collect b inv sig Used-sig seek_fuel 0 true m (omega arith) (omega arith) in
      (
        kvs,
        Runs-bind _ (Runs-gets m) (Runs-bind _ runs (Runs-collected kvs m)),
        record {
          sound = λ k w x.
              let (i, lt, s, e) = g.sound k w x in
              let c = inv.cells i lt (Used-sig i s) in
              let keyed = ap (λ kv. kv.0) e in
              (
                ap (λ q. row_selector (parted_hash hash q)) keyed ∙ c.home,
                view_row-Used b inv k i lt (Used-sig i s) keyed ∙ ap (λ kv. some kv.1) (sym e),
              );
          complete = λ k w same at. elim (Option-cases (cell_of m.file (m.rows r) k)) [
            | inl e ↦ absurd (unread k w at e)
            | inr (i, e) ↦
                let c = cell_of-IsCellOf m.file (m.rows r) k i e in
                let s =
                  sym (inv.cells i c.below c.used).signed
                  ∙ ap (λ q. signature (parted_hash hash q)) (sym c.keyed)
                  ∙ ap signature same in
                subst (λ kv. Memᴰ kv kvs)
                  (ap₂ (λ a b. (a, b)) (sym c.keyed)
                    (some-injective _ _ (ap (value_of m.file (m.rows r)) (sym e) ∙ at)))
                  (g.complete i (omega arith) c.below s)
          ];
        },
      )
    where
      unread :
          (k w : Bytes)
          → value_of m.file (m.rows r) (cell_of m.file (m.rows r) k) ≡ some w
          → cell_of m.file (m.rows r) k ≡ none
          → ⊥
      unread k w at e = cc (at, e)
