-- ===== src/Store/BigReads.antt =====
-- `get_big` on a queue that holds the chunks of a value and its length.
use candystore.Store.Holds.{Holds-bind, Holds-pure, Holds-told}
use candystore.Base.{
  ℕ, zero, suc, ◌+◌, ◌-◌, ◌^◌, ◌<◌, ◌≤◌, ◌≡◌, refl, sym, ap, subst, ◌∙◌, Option, none, some, List,
  [], ◌∷◌, ◌++◌, true, false, ==_self, ==_of_ne, ◌==◌, arith,
}
use candystore.Base.Bytes.{Bytes, length, length-append}
use candystore.Base.Word.{wrapping_add}
use candystore.Hashing.{Hasher}
use candystore.Shard.Mmap.{InternalConfig}
use candystore.Store.{Root}
use candystore.Store.Raw.{View, IsMap}
use candystore.Queue.{Queue, head}
use candystore.Queue.Cells.{Cells, Does}
use candystore.Queue.Calls.{Fits}
use candystore.Queue.Contents.{Item, length-items_from, contents, QueueInv}
use mathlib.Core.List.{append-nil}
use candystore.Base.Word.{le_bytes, length-le_bytes, of_le_bytes-le_bytes}
use mathlib.Core.List.{append_assoc}
use candystore.Store.Big.{seen, with_chunk, get_chunks, get_big}
use candystore.Store.Chunks.{concat}
use candystore.Queue.Ends.{Took}
use candystore.Queue.Extend.{numbered}
use candystore.Queue.Walk.{Span}
use candystore.Queue.Peek.{front, Took-front, range_of, remaining, IsSpan, steps, Does-queue_range}

abbrev rest_of : List Item → List Item
rest_of [] = []
rest_of (x ∷ xs) = xs

Took-rest :
    (xs : List Item) (out : Option Item) (ys : List Item) → Took head xs out ys → ys ≡ rest_of xs
Took-rest xs none ys (e, e') = e' ∙ ap rest_of (sym e)
Took-rest xs (some x) ys e = ap rest_of (sym e)

-- what `set_big` leaves in the queue
abbrev pub stored : ℕ → List Bytes → ℕ → ℕ → List Item
stored base cs last total = numbered base cs ++ ((last, le_bytes 8 total) ∷ [])

length-numbered : (base : ℕ) (cs : List Bytes) → length (numbered base cs) ≡ length cs
unfolding numbered
length-numbered base [] = refl
length-numbered base (c ∷ cs) = ap suc (length-numbered (base + 1) cs)

seen_last :
    (e : ℕ) (val : Bytes)
    → e + 1 < 2 ^ 64
    → length val < 2 ^ 64
    → seen (e + 1) val (e, le_bytes 8 (length val)) ≡ true
unfolding seen
seen_last e val word len =
    let next : wrapping_add e 1 ≡ e + 1 = omega (arith, word) in
    rw
      (
        next,
        ==_self (e + 1),
        length-le_bytes 8 (length val),
        of_le_bytes-le_bytes (length val) len,
        ==_self (length val),
      )
      refl

module _ (base last : ℕ) (val chunk : Bytes) (more : base < last) (word : last + 1 < 2 ^ 64) where
  not_end : (wrapping_add base 1 == (last + 1)) ≡ false
  not_end = ==_of_ne (wrapping_add base 1) (last + 1) (omega (arith, more, word))

  seen_chunk : seen (last + 1) val (base, chunk) ≡ false
  unfolding seen
  seen_chunk = rw not_end refl

  with_chunk_more : with_chunk (last + 1) val (base, chunk) ≡ val ++ chunk
  unfolding with_chunk
  with_chunk_more = rw not_end refl

module _ {S : Type 0} {hash : Hasher} {config : InternalConfig} {root : Root S} {v : View S}
    (law : IsMap hash config root v) {queue_key : Bytes} (fits : Fits config queue_key) where
  gets :
      (cs : List Bytes) (fuel base last : ℕ) (range : Option Span) (val total : Bytes) (c : Cells)
      → QueueInv c
      → IsSpan range
      → remaining c range ≡ stored base cs last (length total)
      → base + length cs ≡ last
      → val ++ concat cs ≡ total
      → length cs < fuel
      → last + 1 < 2 ^ 64
      → length total < 2 ^ 64
      → Does v queue_key
          (get_chunks hash config root queue_key (last + 1) fuel range val)
          c
          (some total)
          c
  unfolding get_chunks numbered
  gets cs zero base last range val total c inv span left at whole enough word len =
      absurd (omega arith)
  gets [] (suc fuel) base last range val total c inv span left at whole enough word len =
      let f = steps law fits true c range inv span in
      let same : val ≡ total = sym (append-nil val) ∙ whole in
      let e : f.out ≡ some (last, le_bytes 8 (length total)) =
        sym (Took-front head (remaining c range) f.out _ f.took) ∙ ap (front head) left in
      let ends : seen (last + 1) val (last, le_bytes 8 (length total)) ≡ true =
        subst (λ t. seen (last + 1) t (last, le_bytes 8 (length total)) ≡ true) (sym same)
          (seen_last last total word len) in
      Holds-bind _ f.does (rw (e, ends) (Holds-told (ap some same) (Holds-pure (some val) c)))
  gets (ch ∷ cs) (suc fuel) base last range val total c inv span left at whole enough word len =
      let f = steps law fits true c range inv span in
      let e : f.out ≡ some (base, ch) =
        sym (Took-front head (remaining c range) f.out _ f.took) ∙ ap (front head) left in
      let rest : remaining c f.rest ≡ stored (base + 1) cs last (length total) =
        Took-rest (remaining c range) f.out _ f.took ∙ ap rest_of left in
      Holds-bind _ f.does (
        rw
          (
            e,
            seen_chunk base last val ch (omega (arith, at)) word,
            with_chunk_more base last val ch (omega (arith, at)) word,
          )
          (gets cs fuel (base + 1) last f.rest (val ++ ch) total c inv f.word rest
            (omega (arith, at)) (append_assoc val ch (concat cs) ∙ whole) (omega (arith, enough))
            word len))

  -- a queue that holds a big item
  pub record HoldsBig (c : Cells) (val : Bytes) : Type 0 where
    pub base : ℕ
    pub cs : List Bytes
    pub last : ℕ
    pub inv : QueueInv c
    pub listed : contents c ≡ stored base cs last (length val)
    pub at : base + length cs ≡ last
    pub whole : concat cs ≡ val
    pub end : (range_of c.desc).1 ≡ last + 1
    pub word : last + 1 < 2 ^ 64
    pub len : length val < 2 ^ 64

  length-contents : (c : Cells) → length (contents c) ≤ (range_of c.desc).1 - (range_of c.desc).0
  unfolding contents
  length-contents c = go c.desc c.item
    where
      go :
          (o : Option Queue) (item : ℕ → Option Bytes)
          → length (contents (record { desc = o; item = item })) ≤ (range_of o).1 - (range_of o).0
      go none item = omega arith
      go (some d) item = length-items_from item (d.tail_idx - d.head_idx) d.head_idx

  pub gets_big :
      (c : Cells) (val : Bytes)
      → HoldsBig c val
      → Does v queue_key (get_big hash config root queue_key) c (some val) c
  unfolding get_big
  gets_big c val h =
      let r = range_of c.desc in
      let enough : length h.cs < r.1 - r.0 + 1 = omega (
        arith,
        ap length h.listed,
        length-contents c,
        length-append (numbered h.base h.cs) ((h.last, le_bytes 8 (length val)) ∷ []),
        length-numbered h.base h.cs,
      ) in
      Holds-bind _ (Does-queue_range law fits c h.inv) (
        subst
          (λ e.
            Does v queue_key (get_chunks hash config root queue_key e (r.1 - r.0 + 1) none []) c
              (some val) c)
          (sym h.end)
          (gets h.cs (r.1 - r.0 + 1) h.base h.last none [] val c h.inv tt h.listed h.at h.whole
            enough h.word h.len))
