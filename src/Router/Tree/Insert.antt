-- ===== src/Router/Tree/Insert.antt =====
-- Insertion into the tree of shards: a shard that has no room is split, until there is room.
use candystore.Base.{
  ℕ, zero, suc, ◌+◌, ◌≤◌, ◌<◌, ◌^◌, ◌≡◌, refl, sym, ap, subst, ◌∙◌, Bool, some, true, false, Option,
  none, ltb, if◌then◌else◌, Bool-cases, inl, inr, arith,
}
use candystore.Base.Bytes.{Bytes, length, bytes_eq}
use candystore.Base.Outcome.{Result, ok, err, Exec}
use candystore.Hashing.{Hasher, parted_hash, shard_selector, num_rows}
use candystore.Stats.{fresh_stats}
use candystore.Shard.Mmap.{InternalConfig}
use candystore.Shard.Mmap.Extends.{Room}
use candystore.Shard.Entry.{InsertMode, InsertStatus, admit, go_on, refuse}
use candystore.Shard.Entry.Spec.{spec_status, spec_value}
use candystore.Shard.{Shard, ShardState, active, split, is_some, new_shard}
use candystore.Shard.Model.{view, ShardInv}
use candystore.Shard.Acts.{Acts}
use candystore.Shard.Compaction.{Healthy}
use candystore.Shard.Copy.SplitRows.{rows_size}
use candystore.Shard.Laws.{row_of, acts_refused}
use candystore.Shard.Splitting.{Parted, Acts-split, middle}
use candystore.Router.Tree.{ShardRouter, leaf, vertex, leaf_of, span_end}
use candystore.Router.Tree.Model.{tree_view, TreeInv, Routes, InTree, Placed}
use candystore.Router.Tree.Rounds.{
  HasCell, Inserts, call, Inserts-leaf, Inserts-bottom, Inserts-top, refused_round,
}
use candystore.Shard.Copy.Split.{low}

-- the rounds that an insertion takes: down the tree, once for each split, and one that is admitted
pub data CanInsert (hash : Hasher) (config : InternalConfig) (dur : ℕ) (key val : Bytes)
    : ℕ → ShardRouter → Type 0 where
  admitted :
      {n lo hi : ℕ} {sh : Shard} (should : Option ℕ)
      → HasCell hash sh key
      → Room (active sh (row_of hash key)) key val
      → admit config (is_some sh.target) (active sh (row_of hash key)) (length key + length val)
        ≡ go_on should
      → CanInsert hash config dur key val (suc n) (leaf lo hi sh)
  split_first :
      {n lo hi : ℕ} {sh : Shard} (shards : Shard × Shard) (sh' : Shard)
      → sh.target ≡ none
      → rows_size sh.live num_rows 0 < 2 ^ 32
      → admit config (is_some sh.target) (active sh (row_of hash key)) (length key + length val)
        ≡ refuse
      → Acts (split hash config dur) sh shards sh'
      → CanInsert hash config dur key val n (vertex lo hi (leaf_of shards.0) (leaf_of shards.1))
      → CanInsert hash config dur key val (suc n) (leaf lo hi sh)
  in_bottom :
      {n lo hi : ℕ} {bottom top : ShardRouter}
      → ltb (shard_selector (parted_hash hash key)) (span_end bottom) ≡ true
      → CanInsert hash config dur key val n bottom
      → CanInsert hash config dur key val (suc n) (vertex lo hi bottom top)
  in_top :
      {n lo hi : ℕ} {bottom top : ShardRouter}
      → ltb (shard_selector (parted_hash hash key)) (span_end bottom) ≡ false
      → CanInsert hash config dur key val n top
      → CanInsert hash config dur key val (suc n) (vertex lo hi bottom top)

module _ {hash : Hasher} {config : InternalConfig} {dur : ℕ} {sh : Shard} {v : ShardInv hash sh}
    {e : sh.target ≡ none} (r : Parted v e config dur) (lo hi : ℕ) where
  abbrev halves : ShardRouter
  halves =
      vertex lo hi (leaf sh.span_start (middle sh) (new_shard sh.span_start (middle sh) r.bottom))
        (leaf (middle sh) sh.span_end (new_shard (middle sh) sh.span_end r.top))

  halves-TreeInv : TreeInv hash halves
  halves-TreeInv = ((r.low_half.inv, r.low_half.healthy), (r.high_half.inv, r.high_half.healthy))

  halves-view : (q : Bytes) → tree_view hash halves q ≡ view hash sh q
  unfolding tree_view
  halves-view q = elim (Bool-cases (low hash (middle sh) q)) [
    | inl below ↦ rw below (r.low_half.view q ∙ ap (λ b. if b then view hash sh q else none) below)
    | inr above ↦ rw above (
        r.high_half.view q
        ∙ ap (λ b. if (if b then false else true) then view hash sh q else none) above)
  ]

  -- what a half has under a key, the shard had, and the key is on that side
  half_has :
      (b : Bool) (o : Option Bytes) (w : Bytes)
      → (if b then o else none) ≡ some w
      → (b ≡ true) × (o ≡ some w)
  half_has true o w e = (refl, e)
  half_has false o w e = absurd (grind (arith, e))

  not_low : (b : Bool) → (if b then false else true) ≡ true → b ≡ false
  not_low true e = absurd (grind (arith, e))
  not_low false e = refl

  in_low :
      (q w : Bytes)
      → view hash (new_shard sh.span_start (middle sh) r.bottom) q ≡ some w
      → (low hash (middle sh) q ≡ true) × (view hash sh q ≡ some w)
  in_low q w e = half_has _ (view hash sh q) w (sym (r.low_half.view q) ∙ e)

  in_high :
      (q w : Bytes)
      → view hash (new_shard (middle sh) sh.span_end r.top) q ≡ some w
      → (low hash (middle sh) q ≡ false) × (view hash sh q ≡ some w)
  in_high q w e =
      let (side, there) = half_has _ (view hash sh q) w (sym (r.high_half.view q) ∙ e) in
      (not_low (low hash (middle sh) q) side, there)

  halves-InTree : (q : Bytes) → InTree hash halves q → InTree hash (leaf lo hi sh) q
  halves-InTree q (inl (w, e)) = (w, (in_low q w e).1)
  halves-InTree q (inr (w, e)) = (w, (in_high q w e).1)

  halves-Placed : Placed hash halves
  halves-Placed = (tt, tt, λ q (w, e). (in_low q w e).0, λ q (w, e). (in_high q w e).0)

abbrev pub ok_value : {A : Type 0} → Result A → A → A
ok_value (ok x) d = x
ok_value (err e) d = d

same_result :
    {A : Type 0} {m : Exec ShardState A} {sh a b : Shard} {x y : A}
    → Acts m sh x a
    → Acts m sh y b
    → x ≡ y
same_result {sh = sh} {x = x} p q =
    let s : ShardState = record { shard = sh; stats = fresh_stats } in
    ap (λ r. ok_value r x) (sym (p.at s refl).0 ∙ (q.at s refl).0)

module _ (hash : Hasher) (config : InternalConfig) (dur : ℕ) (key val : Bytes)
    (mode : InsertMode) where
  -- the tree after a split stands for the map of the leaf
  from_halves :
      (fuel lo hi : ℕ) (sh : Shard) (node : ShardRouter)
      → ((q : Bytes) → tree_view hash node q ≡ view hash sh q)
      → span_end node ≡ hi
      → Placed hash node
      → ((q : Bytes) → InTree hash node q → InTree hash (leaf lo hi sh) q)
      → ((x : InsertStatus) (left : ShardRouter)
          → Routes (call hash config dur key val mode fuel) node x left
          → Routes (call hash config dur key val mode (suc fuel)) (leaf lo hi sh) x left)
      → Inserts hash (call hash config dur key val mode fuel) key val mode node
      → Inserts hash (call hash config dur key val mode (suc fuel)) key val mode (leaf lo hi sh)
  unfolding tree_view
  from_halves fuel lo hi sh node same end parts within round i = record {
    left = i.left;
    routes =
        subst
          (λ o.
            Routes (call hash config dur key val mode (suc fuel)) (leaf lo hi sh)
              (spec_status mode o) i.left)
          (same key) (round _ _ i.routes);
    changes = record {
      inv = i.changes.inv;
      end = i.changes.end ∙ end;
      within =
          λ q t. elim (i.changes.within q t) [ inl old ↦ inl (within q old) | inr new ↦ inr new ];
      placed = λ p. i.changes.placed parts;
      view = λ q.
          i.changes.view q
          ∙ ap (λ o. if bytes_eq q key then spec_value mode val o else tree_view hash node q)
              (same key)
          ∙ ap (λ o. if bytes_eq q key then spec_value mode val (view hash sh key) else o) (same q);
    };
  }

  -- From a valid tree where the insertion takes `n` rounds, down the tree, through splits of shards
  -- that refuse it, to a shard that admits it and has a cell for it: with at least as much fuel,
  -- `insert` raises no error, returns what the mode says of the value that the tree had under the
  -- key, and leaves a valid tree that has the value of the mode under the key, and is the same under
  -- every other key.
  pub insert-Inserts :
      (fuel : ℕ) {n : ℕ} {node : ShardRouter}
      → CanInsert hash config dur key val n node
      → TreeInv hash node
      → n ≤ fuel
      → Inserts hash (call hash config dur key val mode fuel) key val mode node
  insert-Inserts zero can inv enough = absurd (never can enough)
    where
      never : {n : ℕ} {node : ShardRouter} → CanInsert hash config dur key val n node → n ≤ 0 → ⊥
      never (admitted should cell room e) le = omega arith
      never (split_first shards sh' e fits refused acts next) le = omega arith
      never (in_bottom e next) le = omega arith
      never (in_top e next) le = omega arith
  insert-Inserts (suc fuel) (admitted {lo = lo} {hi} {sh} should cell room e) inv enough =
      Inserts-leaf hash config dur key val mode fuel lo hi sh should inv cell room e
  insert-Inserts (suc fuel) (in_bottom {lo = lo} {hi} {bottom} {top} e next) inv enough =
      Inserts-bottom hash config dur key val mode fuel lo hi bottom top e inv.1
        (insert-Inserts fuel next inv.0 (omega arith))
  insert-Inserts (suc fuel) (in_top {lo = lo} {hi} {bottom} {top} e next) inv enough =
      Inserts-top hash config dur key val mode fuel lo hi bottom top e inv.0
        (insert-Inserts fuel next inv.1 (omega arith))
  insert-Inserts (suc fuel) (split_first {n} {lo} {hi} {sh} shards sh' e fits refused acts next) inv
        enough =
      let r = Acts-split inv.0 e config dur (subst (Healthy sh.handle) e inv.1) fits in
      let same = same_result acts r.acts in
      from_halves fuel lo hi sh (halves r lo hi) (halves-view r lo hi) refl (halves-Placed r lo hi)
        (halves-InTree r lo hi)
        (λ x left routes.
          refused_round hash config dur key val mode fuel lo hi sh _ _
            (acts_refused inv.0 key config val mode refused) r.acts routes)
        (insert-Inserts fuel
          (subst
            (λ p. CanInsert hash config dur key val n (vertex lo hi (leaf_of p.0) (leaf_of p.1)))
            same next)
          (halves-TreeInv r lo hi) (omega arith))
