-- ===== src/Shard/Fresh.antt =====
-- A new shard: it is valid and empty.
use candystore.Base.{ℕ, ◌≡◌, refl, none, arith}
use candystore.Base.Bytes.{Bytes}
use candystore.Hashing.{Hasher}
use candystore.Shard.Mmap.{InternalConfig, create}
use candystore.Shard.Copy.Prefix.{view_row-free}
use candystore.Shard.Model.{view, ShardInv}
use candystore.Shard.Compaction.{Healthy}
use candystore.Shard.{new_shard}

-- A new shard over a new file is valid, has no compaction, and holds no key.
pub new_shard-ShardInv :
    (hash : Hasher) (config : InternalConfig) (span_start span_end : ℕ)
    → let sh = new_shard span_start span_end (create config) in
      ShardInv hash sh × Healthy sh.handle sh.target × ((q : Bytes) → view hash sh q ≡ none)
unfolding create Healthy view
new_shard-ShardInv hash config span_start span_end = (
  record {
    live = omega arith;
    target = tt;
    rows = λ r lt. record {
      cells = λ i li u. absurd (u refl);
      unique = λ i j li lj ui uj p. absurd (ui refl);
    };
  },
  tt,
  λ q. view_row-free _ _ q (λ j. refl),
)
