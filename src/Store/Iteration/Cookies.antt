-- ===== src/Store/Iteration/Cookies.antt =====
-- A cookie brings an iterator back to its place.
use candystore.Base.{◌+◌, ◌*◌, ◌/◌, ◌%◌, ◌^◌, ◌<◌, ◌≡◌, ap, ◌∙◌, arith}
use candystore.Base.Bits.{bit_or_sum}
use candystore.Store.Iteration.{CandyStoreIterator, cookie, from_cookie}
use Prim.Native.Nat.{bit_or}

cookie-sum :
    (it : CandyStoreIterator)
    → cookie it
      ≡ it.shard_selector % 2 ^ 16 * 2 ^ 32 + it.row_idx % 2 ^ 16 * 2 ^ 16 + it.entry_idx % 2 ^ 16
unfolding cookie
cookie-sum it =
    let s = it.shard_selector % 2 ^ 16 in
    let r = it.row_idx % 2 ^ 16 in
    let high : bit_or (s * 2 ^ 32) (r * 2 ^ 16) ≡ (s * 2 ^ 16 + r) * 2 ^ 16 =
      bit_or_sum 32 s (r * 2 ^ 16) (omega arith) ∙ omega arith in
    ap (λ h. bit_or h (it.entry_idx % 2 ^ 16)) high
    ∙ bit_or_sum 16 (s * 2 ^ 16 + r) (it.entry_idx % 2 ^ 16) (omega arith)
    ∙ omega arith

-- An iterator whose shard selector and place in the shard fit 16 bits has a cookie from which
-- `from_cookie` makes that iterator again.
pub from_cookie-cookie :
    (it : CandyStoreIterator)
    → it.shard_selector < 2 ^ 16
    → it.row_idx < 2 ^ 16
    → it.entry_idx < 2 ^ 16
    → from_cookie (cookie it) it.raw it.include_val ≡ it
unfolding from_cookie
from_cookie-cookie it s r e =
    let sum = cookie-sum it in
    let selector : cookie it / 2 ^ 32 % 2 ^ 16 ≡ it.shard_selector = omega (arith, sum, s, r, e) in
    let row : cookie it / 2 ^ 16 % 2 ^ 16 ≡ it.row_idx = omega (arith, sum, s, r, e) in
    let entry : cookie it % 2 ^ 16 ≡ it.entry_idx = omega (arith, sum, s, r, e) in
    ap
      (λ n. record it {
        shard_selector = n;
        row_idx = cookie it / 2 ^ 16 % 2 ^ 16;
        entry_idx = cookie it % 2 ^ 16;
      })
      selector
    ∙ ap (λ n. record it { row_idx = n; entry_idx = cookie it % 2 ^ 16 }) row
    ∙ ap (λ n. record it { entry_idx = n }) entry
