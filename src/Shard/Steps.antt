-- ===== src/Shard/Steps.antt =====
-- Sequences of operations on a shard, with the rounds of a compaction between them, against the
-- map that a client has in mind.
use candystore.Base.{
  ℕ, ◌+◌, ◌≤◌, ◌<◌, ◌^◌, ◌≡◌, refl, sym, ap, subst, ◌∙◌, Bool, Option, none, some, if◌then◌else◌,
}
use candystore.Base.Maps.{Map, put, no_keys}
use candystore.Base.Bytes.{Bytes, bytes_eq, length}
use candystore.Hashing.{Hasher, parted_hash, num_rows, row_width}
use candystore.Stats.{fresh_stats}
use candystore.Base.Outcome.{Exec, ok, err}
use candystore.Shard.Mmap.{InternalConfig, MmapFile, create}
use candystore.Shard.Mmap.Extends.{Room}
use candystore.Shard.Entry.{InsertStatus, InsertMode, admit, go_on, refuse}
use candystore.Shard.Entry.Place.{is_full}
use candystore.Shard.Entry.Spec.{row_value}
use candystore.Shard.Copy.Prefix.{cells_size}
use candystore.Shard.Acts.{Acts}
use candystore.Shard.Model.{view, ShardInv}
use candystore.Shard.Compaction.{Healthy, Keeps, Healthy-set_active}
use candystore.Shard.Compaction.Round.{Acts-compact_step, Acts-finish_compaction}
use candystore.Shard.Laws.{row_of, Updates, Acts-get, Acts-remove, Acts-insert, acts_refused}
use candystore.Shard.Fresh.{new_shard-ShardInv}
use candystore.Shard.{
  Job, running, finished, operate_on_row, Shard, ShardState, active, insert, remove, get,
  compact_step, finish_compaction, is_some, new_shard,
}

-- the row of a key has no free cell
abbrev pub full : Hasher → Shard → Bytes → Bool
full hash sh key = is_full ((active sh (row_of hash key)).rows (row_of hash key))

-- what a step of the shard does to the client's map
pub data Step (hash : Hasher) (config : InternalConfig) : Shard → Map → Shard → Map → Type 0 where
  inserted :
      {sh sh' : Shard} {f : Map} (key val : Bytes) (mode : InsertMode) (should : Option ℕ)
      (x : InsertStatus)
      → Room (active sh (row_of hash key)) key val
      → admit config (is_some sh.target) (active sh (row_of hash key)) (length key + length val)
        ≡ go_on should
      → Acts (insert config (parted_hash hash key) key val mode) sh x sh'
      → Step hash config sh f sh' (put key (row_value (full hash sh key) mode val (f key)) f)
  refused :
      {sh sh' : Shard} {f : Map} (key val : Bytes) (mode : InsertMode) (x : InsertStatus)
      → admit config (is_some sh.target) (active sh (row_of hash key)) (length key + length val)
        ≡ refuse
      → Acts (insert config (parted_hash hash key) key val mode) sh x sh'
      → Step hash config sh f sh' f
  removed :
      {sh sh' : Shard} {f : Map} (key : Bytes) (x : Option Bytes)
      → Acts (remove (parted_hash hash key) key) sh x sh'
      → Step hash config sh f sh' (put key none f)
  copied :
      {sh sh' : Shard} {f : Map} (t : MmapFile) (first_row : Bool)
      → sh.target ≡ some t
      → t.compacted_up_to < num_rows
      → t.write_offset + cells_size (sh.live.rows t.compacted_up_to) row_width 0 < 2 ^ 32
      → Acts (compact_step hash first_row) sh tt sh'
      → Step hash config sh f sh' f
  swapped :
      {sh sh' : Shard} {f : Map} (t : MmapFile) (dur : ℕ)
      → sh.target ≡ some t
      → num_rows ≤ t.compacted_up_to
      → Acts (finish_compaction dur) sh tt sh'
      → Step hash config sh f sh' f

pub data Reach (hash : Hasher) (config : InternalConfig) : Shard → Map → Type 0 where
  fresh :
      (span_start span_end : ℕ)
      → Reach hash config (new_shard span_start span_end (create config)) no_keys
  next :
      {sh sh' : Shard} {f f' : Map}
      → Reach hash config sh f
      → Step hash config sh f sh' f'
      → Reach hash config sh' f'

-- the shard is valid, its compactions work, and it stands for the client's map
record Implements (hash : Hasher) (sh : Shard) (f : Map) : Type 0 where
  inv : ShardInv hash sh
  healthy : Healthy sh.handle sh.target
  same : (q : Bytes) → view hash sh q ≡ f q

-- A run leaves one shard.
Acts_unique :
    {A : Type 0} {m : Exec ShardState A} {sh a b : Shard} {x y : A}
    → Acts m sh x a
    → Acts m sh y b
    → a ≡ b
Acts_unique {sh = sh} p q =
    let s : ShardState = record { shard = sh; stats = fresh_stats } in
    sym (p.at s refl).1 ∙ (q.at s refl).1

Healthy-copied :
    (handle : Option Job) (t t' : MmapFile) → Healthy handle (some t) → Healthy handle (some t')
unfolding Healthy
Healthy-copied (some running) t t' h = h
Healthy-copied none t t' h = absurd h
Healthy-copied (some (finished (ok x))) t t' h = absurd h
Healthy-copied (some (finished (err e))) t t' h = absurd h

pub remove-Healthy :
    (hash : Hasher) (key : Bytes) {sh sh' : Shard} {x : Option Bytes}
    → Acts (remove (parted_hash hash key) key) sh x sh'
    → Healthy sh.handle sh.target
    → Healthy sh'.handle sh'.target
unfolding remove operate_on_row
remove-Healthy hash key {sh} acts h =
    subst (λ z. Healthy z.handle z.target)
      (acts.at (record { shard = sh; stats = fresh_stats }) refl).1 (Healthy-set_active sh _ _ h)

Implements-Keeps :
    {hash : Hasher} {sh sh' : Shard} {f : Map}
    → Implements hash sh f
    → Keeps hash sh sh'
    → Healthy sh'.handle sh'.target
    → Implements hash sh' f
Implements-Keeps i k h = record { inv = k.inv; healthy = h; same = λ q. k.view q ∙ i.same q }

Implements-Updates :
    {hash : Hasher} {sh sh' : Shard} {f : Map} {key : Bytes} {v : Option Bytes}
    → Implements hash sh f
    → Updates hash sh sh' key v
    → Healthy sh'.handle sh'.target
    → Implements hash sh' (put key v f)
Implements-Updates {key = key} {v} i u h = record {
  inv = u.inv;
  healthy = h;
  same = λ q. u.view q ∙ ap (λ o. if bytes_eq q key then v else o) (i.same q);
}

module _ {hash : Hasher} {config : InternalConfig} where
  Step-Implements :
      {sh sh' : Shard} {f f' : Map}
      → Step hash config sh f sh' f'
      → Implements hash sh f
      → Implements hash sh' f'
  Step-Implements {sh} {f = f} (inserted key val mode should x room admitted acts) i =
      let (left, done, u, h, g, due) =
        Acts-insert i.inv key config val mode should i.healthy room admitted in
      subst (λ z. Implements hash z (put key (row_value (full hash sh key) mode val (f key)) f))
        (Acts_unique done acts) (Implements-Updates i (rw (i.same key) at u) h)
  Step-Implements {f = f} (refused key val mode x denied acts) i =
      subst (λ z. Implements hash z f)
        (Acts_unique (acts_refused i.inv key config val mode denied) acts) i
  Step-Implements {f = f} (removed key x acts) i =
      let (left, done, u) = Acts-remove i.inv key in
      subst (λ z. Implements hash z (put key none f)) (Acts_unique done acts)
        (Implements-Updates i u (remove-Healthy hash key done i.healthy))
  Step-Implements {f = f} (copied t first_row e lt fits acts) i =
      let (t', done, n, k) = Acts-compact_step i.inv t e first_row lt fits in
      subst (λ z. Implements hash z f) (Acts_unique done acts)
        (Implements-Keeps i k (Healthy-copied _ t t' (rw e at i.healthy)))
  Step-Implements {f = f} (swapped t dur e le acts) i =
      let (done, k, h, rest) = Acts-finish_compaction i.inv t e dur le in
      subst (λ z. Implements hash z f) (Acts_unique done acts) (Implements-Keeps i k h)

  Reach-Implements : {sh : Shard} {f : Map} → Reach hash config sh f → Implements hash sh f
  Reach-Implements (fresh span_start span_end) =
      let (v, h, e) = new_shard-ShardInv hash config span_start span_end in
      record { inv = v; healthy = h; same = e }
  Reach-Implements (next reached step) = Step-Implements step (Reach-Implements reached)

  -- In every shard that is reached from a new one by insertions of entries that have room, refused
  -- insertions, removals, rounds of a compaction that have room and exchanges of its files, in any
  -- order, `get` returns for every key, without an error, what the client's map has under it.
  pub Reach-get :
      {sh : Shard} {f : Map}
      → Reach hash config sh f
      → (key : Bytes) → Acts (get (parted_hash hash key) key) sh (f key) sh
  Reach-get {sh} reached key =
      let i = Reach-Implements reached in
      subst (λ v. Acts (get (parted_hash hash key) key) sh v sh) (i.same key) (Acts-get i.inv key)
