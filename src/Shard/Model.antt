-- ===== src/Shard/Model.antt =====
-- The map that a shard stands for while a compaction may be under way, and its invariant.
use candystore.Base.{
  ℕ, ◌≤◌, ◌<◌, ◌≡◌, ◌≢◌, refl, sym, ap, subst, ◌∙◌, Bool, true, false, Option, none, some, ltb,
  if◌then◌else◌, ◌⊎◌, inl, inr, Bool-cases, ltb→lt, arith,
}
use candystore.Base.Bytes.{Bytes, bytes_eq, bytes_eq_iff}
use candystore.Hashing.{Hasher, parted_hash, row_selector, invalid_sig, num_rows}
use candystore.Hashing.Laws.{row_selector-lt}
use candystore.Shard.Mmap.{MmapFile}
use candystore.Shard.Mmap.Extends.{IsBacked}
use candystore.Shard.Entry.Model.{RowInv, view_row, RowInv-Extends, view_row-Extends}
use candystore.Shard.Entry.Writes.{Writes}
use candystore.Shard.{Shard, serves, store_back, active, set_active}
use mathlib.Core.Bool.{false≢true}
use native.Mathlib.Decide.{ℕ_discrete}

-- the value under a key: that of the file that serves the key's row
unfoldable pub view : Hasher → Shard → Bytes → Option Bytes
view hash sh key =
    let r = row_selector (parted_hash hash key) in
    view_row (active sh r).file ((active sh r).rows r) key

abbrev pub read_row : Bytes → MmapFile → ℕ → Option Bytes
read_row q m r = view_row m.file (m.rows r) q

-- the target of a compaction is backed, and holds nothing in the rows that are still to come
pub record IsTarget (t : MmapFile) : Type 0 where
  pub backed : IsBacked t
  pub free : (r j : ℕ) → t.compacted_up_to ≤ r → (t.rows r).signatures j ≡ invalid_sig

abbrev pub TargetInv : Option MmapFile → Type 0
TargetInv none = Unit
TargetInv (some t) = IsTarget t

pub record ShardInv (hash : Hasher) (sh : Shard) : Type 0 where
  pub live : IsBacked sh.live
  pub target : TargetInv sh.target
  pub rows : (r : ℕ) → r < num_rows → RowInv hash (active sh r) r ((active sh r).rows r)

serves-IsBacked :
    (r : ℕ) (live : MmapFile) (target : Option MmapFile)
    → IsBacked live
    → TargetInv target
    → IsBacked (serves r live target)
serves-IsBacked r live none b t = b
serves-IsBacked r live (some m) b t = elim (Bool-cases (ltb r m.compacted_up_to)) [
  | inl e ↦ rw e t.backed
  | inr e ↦ rw e b
]

pub active-IsBacked :
    {hash : Hasher} {sh : Shard} → ShardInv hash sh → (r : ℕ) → IsBacked (active sh r)
active-IsBacked {sh = sh} v r = serves-IsBacked r sh.live sh.target v.live v.target

-- after row `r` was written, every row is served by the written file, if it shares it with `r`, or
-- by the file that served it before
abbrev Served : ℕ → ℕ → MmapFile → Option MmapFile → MmapFile → Type 0
Served r s live target g =
    let files = store_back r live target g in
    ((serves s files.0 files.1 ≡ g) × (serves s live target ≡ serves r live target))
    ⊎ ((serves s files.0 files.1 ≡ serves s live target) × (s ≢ r))

serves-store_back :
    (r s : ℕ) (live : MmapFile) (target : Option MmapFile) (g : MmapFile)
    → g.compacted_up_to ≡ (serves r live target).compacted_up_to
    → Served r s live target g
serves-store_back r s live none g e = inl (refl, refl)
serves-store_back r s live (some t) g e = elim (Bool-cases (ltb r t.compacted_up_to)) [
  | inl low ↦
      let cut : g.compacted_up_to ≡ t.compacted_up_to = rw low at e in
      let next = ap (ltb s) cut in
      elim (Bool-cases (ltb s t.compacted_up_to)) [
        | inl low' ↦ inl (rw (low, next ∙ low'), rw (low, low'))
        | inr high' ↦
            inr
              (rw (low, next ∙ high', high'), apart true false low high' (λ q. false≢true (sym q)))
      ]
  | inr high ↦ elim (Bool-cases (ltb s t.compacted_up_to)) [
    | inl low' ↦ inr (rw (high, low'), apart false true high low' false≢true)
    | inr high' ↦ inl (rw (high, high'), rw (high, high'))
  ]
]
  where
    apart :
        (b c : Bool)
        → ltb r t.compacted_up_to ≡ b
        → ltb s t.compacted_up_to ≡ c
        → (b ≡ c → ⊥)
        → s ≢ r
    apart b c eb ec ne p = ne (sym eb ∙ ap (λ x. ltb x t.compacted_up_to) (sym p) ∙ ec)

stored-target :
    (r : ℕ) (live : MmapFile) (target : Option MmapFile) (g : MmapFile)
    → IsBacked live
    → TargetInv target
    → IsBacked g
    → ((s : ℕ) → s ≢ r → g.rows s ≡ (serves r live target).rows s)
    → g.compacted_up_to ≡ (serves r live target).compacted_up_to
    → TargetInv (store_back r live target g).1 × IsBacked (store_back r live target g).0
stored-target r live none g b t bg same cut = (tt, bg)
stored-target r live (some m) g b t bg same cut = elim (Bool-cases (ltb r m.compacted_up_to)) [
  | inr high ↦ rw high (t, bg)
  | inl low ↦ rw low (kept (ltb→lt r m.compacted_up_to low) (rw low at same) (rw low at cut), b)
]
  where
    kept :
        r < m.compacted_up_to
        → ((s : ℕ) → s ≢ r → g.rows s ≡ m.rows s)
        → g.compacted_up_to ≡ m.compacted_up_to
        → IsTarget g
    kept low' same' cut' = record {
      backed = bg;
      free = λ s j le.
          let ne : s ≢ r = omega (arith, cut') in
          ap (λ row. row.signatures j) (same' s ne) ∙ t.free s j (omega (arith, cut'));
    }

module _ {hash : Hasher} {sh : Shard} (v : ShardInv hash sh) {r : ℕ} (lt : r < num_rows)
    {g : MmapFile} {k : Bytes} {val : Option Bytes} (w : Writes hash (active sh r) g r k val) where
  served : (s : ℕ) → Served r s sh.live sh.target g
  served s = serves-store_back r s sh.live sh.target g w.frontier

  written-rows :
      (s : ℕ)
      → s < num_rows
      → RowInv hash (active (set_active sh r g) s) s ((active (set_active sh r g) s).rows s)
  written-rows s ls = elim (served s) [
    | inr (same, ne) ↦ rw same (v.rows s ls)
    | inl (new, was) ↦ elim (ℕ_discrete s r) [
      | yes e ↦ at (sym new) (subst (λ a. RowInv hash g a (g.rows a)) (sym e) w.inv)
      | no ne ↦
          at (sym new) (rw (w.elsewhere s ne) (RowInv-Extends w.extends (at was (v.rows s ls))))
    ]
  ]
    where
      at : {m m' : MmapFile} → m ≡ m' → RowInv hash m s (m.rows s) → RowInv hash m' s (m'.rows s)
      at p h = subst (λ m. RowInv hash m s (m.rows s)) p h

  written-target : TargetInv (set_active sh r g).target × IsBacked (set_active sh r g).live
  written-target =
      stored-target r sh.live sh.target g v.live v.target w.extends.backed w.elsewhere w.frontier

  -- Writing one row of the file that serves it keeps the shard valid.
  pub set_active-ShardInv : ShardInv hash (set_active sh r g)
  set_active-ShardInv = record {
    live = written-target.1;
    target = written-target.0;
    rows = written-rows;
  }

  -- It changes the shard's map as it changes the row's.
  pub view-set_active :
      row_selector (parted_hash hash k) ≡ r
      → (q : Bytes)
      → view hash (set_active sh r g) q ≡ (if bytes_eq q k then val else view hash sh q)
  unfolding view
  view-set_active home q = go (row_selector (parted_hash hash q)) refl
    where
      not_k : (s : ℕ) → row_selector (parted_hash hash q) ≡ s → s ≢ r → bytes_eq q k ≡ false
      not_k s es ne = elim (Bool-cases (bytes_eq q k)) [
        | inr f ↦ f
        | inl t ↦ absurd (
            ne (
              sym es ∙ ap (λ x. row_selector (parted_hash hash x)) ((bytes_eq_iff q k).0 t) ∙ home))
      ]

      go :
          (s : ℕ)
          → row_selector (parted_hash hash q) ≡ s
          → read_row q (active (set_active sh r g) s) s
            ≡ (if bytes_eq q k then val else read_row q (active sh s) s)
      go s es = elim (served s) [
        | inr (same, ne) ↦ rw (not_k s es ne) (ap (λ m. read_row q m s) same)
        | inl (new, was) ↦ elim (ℕ_discrete s r) [
          | yes e ↦
              ap (λ m. read_row q m s) new
              ∙ ap (read_row q g) e
              ∙ w.view q
              ∙ ap (λ o. if bytes_eq q k then val else o)
                  (ap (read_row q (active sh r)) (sym e) ∙ ap (λ m. read_row q m s) (sym was))
          | no ne ↦ rw (not_k s es ne) (
              ap (λ m. read_row q m s) new
              ∙ ap (λ row. view_row g.file row q) (w.elsewhere s ne)
              ∙ view_row-Extends w.extends (valid was) q
              ∙ ap (λ m. read_row q m s) (sym was))
        ]
      ]
        where
          valid : active sh s ≡ active sh r → RowInv hash (active sh r) s ((active sh r).rows s)
          valid was =
              subst (λ m. RowInv hash m s (m.rows s)) was
                (v.rows s (subst (λ x. x < num_rows) es (row_selector-lt (parted_hash hash q))))
