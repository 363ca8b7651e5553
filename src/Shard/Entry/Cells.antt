-- ===== src/Shard/Entry/Cells.antt =====
-- Writing one cell of a row, as an update of the map that the row stands for.
use candystore.Base.{
  ℕ, ◌<◌, ◌≡◌, ◌≢◌, sym, ap, subst, ◌∙◌, false, some, if◌then◌else◌, inl, inr, Bool-cases,
  Option-cases, arith,
}
use candystore.Base.Bytes.{Bytes, bytes_eq, bytes_eq_iff}
use candystore.Base.Search.{position_congr, position-eq-some}
use candystore.Hashing.{Hasher, row_width}
use candystore.Shard.Disk.{File}
use candystore.Shard.Row.{ShardRow}
use candystore.Shard.Mmap.{MmapFile}
use candystore.Shard.Mmap.Runs.{key_at, val_at}
use candystore.Shard.Entry.Model.{
  Used, IsEntry, RowInv, has_key, cell_of, view_row, has_key-intro, has_key-false, cell_of-IsCellOf,
}
use native.Mathlib.Decide.{ℕ_discrete}

-- no cell but `i` has the key
abbrev pub Alone : File → ShardRow → ℕ → Bytes → Type 0
Alone f row i k =
    (j : ℕ) → j < row_width → j ≢ i → Used row j → key_at f (row.offsets_and_sizes j) ≢ k

abbrev pub SameElsewhere : ShardRow → ShardRow → ℕ → Type 0
SameElsewhere row row' i =
    (j : ℕ)
    → j ≢ i
    → (row'.signatures j ≡ row.signatures j) × (row'.offsets_and_sizes j ≡ row.offsets_and_sizes j)

pub record Sets (f : File) (row row' : ShardRow) (i : ℕ) (k v : Bytes) : Type 0 where
  pub below : i < row_width
  pub used : Used row' i
  pub key : key_at f (row'.offsets_and_sizes i) ≡ k
  pub val : val_at f (row'.offsets_and_sizes i) ≡ v
  pub others : SameElsewhere row row' i
  pub alone : Alone f row i k
  pub was : Used row i → key_at f (row.offsets_and_sizes i) ≡ k

module _ {f : File} {row row' : ShardRow} {i : ℕ} {k v : Bytes} (t : Sets f row row' i k v) where
  has_key_elsewhere : (q : Bytes) (j : ℕ) → j ≢ i → has_key f row' q j ≡ has_key f row q j
  has_key_elsewhere q j ne = rw ((t.others j ne).0, (t.others j ne).1)

  alone-has_key : (j : ℕ) → j < row_width → j ≢ i → has_key f row' k j ≡ false
  alone-has_key j lt ne =
      has_key_elsewhere k j ne ∙ has_key-false f row k j (λ u e. t.alone j lt ne u (sym e))

  found : cell_of f row' k ≡ some i
  unfolding cell_of
  found = position-eq-some (has_key f row' k) row_width 0 i (record {
    from = omega arith;
    below = omega (arith, t.below);
    holds = has_key-intro f row' k i t.used (sym t.key);
    before = λ j lo hi. alone-has_key j (omega (arith, t.below)) (omega arith);
  })

  other_key : (q : Bytes) → bytes_eq q k ≡ false → q ≢ k
  other_key q ne e = ground (arith, bytes_eq_iff q k)

  has_key_other : (q : Bytes) → q ≢ k → (j : ℕ) → has_key f row' q j ≡ has_key f row q j
  has_key_other q ne j = elim (ℕ_discrete j i) [
    | yes e ↦ rw e (
        has_key-false f row' q i (λ u p. ne (p ∙ t.key))
        ∙ sym (has_key-false f row q i (λ u p. ne (p ∙ t.was u))))
    | no off ↦ has_key_elsewhere q j off
  ]

  unmoved : (q : Bytes) → q ≢ k → cell_of f row' q ≡ cell_of f row q
  unfolding cell_of
  unmoved q ne =
      position_congr (has_key f row' q) (has_key f row q) row_width 0
        (λ j lo hi. has_key_other q ne j)

  view_row-set_self : view_row f row' k ≡ some v
  unfolding view_row
  view_row-set_self = rw found (ap some t.val)

  view_row-set_ne : (q : Bytes) → q ≢ k → view_row f row' q ≡ view_row f row q
  unfolding view_row
  view_row-set_ne q ne = elim (Option-cases (cell_of f row q)) [
    | inl e ↦ rw (unmoved q ne, e)
    | inr (j, e) ↦
        let c = cell_of-IsCellOf f row q j e in
        let moved : j ≢ i = λ at_i. ne (
          c.keyed
          ∙ ap (λ a. key_at f (row.offsets_and_sizes a)) at_i
          ∙ t.was (subst (Used row) at_i c.used)) in
        rw (unmoved q ne, e, (t.others j moved).1)
  ]

  -- The key that is set reads as the new value, and every other key as before.
  pub view_row-set :
      (q : Bytes) → view_row f row' q ≡ (if bytes_eq q k then some v else view_row f row q)
  view_row-set q = elim (Bool-cases (bytes_eq q k)) [
    | inl e ↦ rw (e, (bytes_eq_iff q k).0 e) view_row-set_self
    | inr e ↦ rw e (view_row-set_ne q (other_key q e))
  ]

-- A row whose cell was set keeps the invariant, if the new cell is an entry.
module _ {hash : Hasher} {m : MmapFile} {r : ℕ} {row row' : ShardRow} {i : ℕ} {k v : Bytes}
    (t : Sets m.file row row' i k v)
    (e : IsEntry hash m r (row'.signatures i) (row'.offsets_and_sizes i))
    (inv : RowInv hash m r row) where
  Used-before : (j : ℕ) → j ≢ i → Used row' j → Used row j
  Used-before j ne u p = u ((t.others j ne).0 ∙ p)

  set-cells :
      (j : ℕ)
      → j < row_width
      → Used row' j
      → IsEntry hash m r (row'.signatures j) (row'.offsets_and_sizes j)
  set-cells j lt u = elim (ℕ_discrete j i) [
    | yes at_i ↦ rw at_i e
    | no ne ↦ rw ((t.others j ne).0, (t.others j ne).1) (inv.cells j lt (Used-before j ne u))
  ]

  -- another cell does not have the key that was set
  set-apart :
      (j : ℕ) → j < row_width → j ≢ i → Used row' j → key_at m.file (row'.offsets_and_sizes j) ≢ k
  set-apart j lt ne u p =
      t.alone j lt ne (Used-before j ne u) (ap (key_at m.file) (sym (t.others j ne).1) ∙ p)

  set_unique :
      (a b : ℕ)
      → a < row_width
      → b < row_width
      → Used row' a
      → Used row' b
      → key_at m.file (row'.offsets_and_sizes a) ≡ key_at m.file (row'.offsets_and_sizes b)
      → a ≡ b
  set_unique a b la lb ua ub p = elim (ℕ_discrete a i) [
    | yes ai ↦ elim (ℕ_discrete b i) [
      | yes bi ↦ ai ∙ sym bi
      | no nb ↦ absurd (
          set-apart b lb nb ub
            (sym p ∙ ap (λ x. key_at m.file (row'.offsets_and_sizes x)) ai ∙ t.key))
    ]
    | no na ↦ elim (ℕ_discrete b i) [
      | yes bi ↦
          absurd (
            set-apart a la na ua
              (p ∙ ap (λ x. key_at m.file (row'.offsets_and_sizes x)) bi ∙ t.key))
      | no nb ↦
          inv.unique a b la lb (Used-before a na ua) (Used-before b nb ub)
            (ap (key_at m.file) (sym (t.others a na).1) ∙ p ∙ ap (key_at m.file) (t.others b nb).1)
    ]
  ]

  pub RowInv-set : RowInv hash m r row'
  RowInv-set = record { cells = set-cells; unique = set_unique }
