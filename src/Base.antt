-- ===== src/Base.antt =====
-- Shared names: the libraries', passed on, and the helpers that several components use. Nothing
-- here models a file of the repository but the byte strings and the fallible calls of Rust.
mod Logic
pub mod Bytes
pub mod Bits
pub mod Maps
pub mod Word
pub mod Suffix
pub mod Search
pub mod Outcome
pub use Logic.*
pub use Prim.Native.Nat.{ℕ, zero, suc, ◌+◌, ◌-◌, ◌*◌, ◌/◌, ◌%◌, ◌^◌, ◌≤◌, ◌<◌, min, max, bit_or}
pub use mathlib.Core.Path.{◌≡◌, refl, sym, ap, ◌∙◌, subst}
pub use mathlib.Core.Logic.{◌≢◌, ◌↔◌, ◌⊎◌, inl, inr}
pub use mathlib.Core.Bool.{Bool, true, false, not, ◌&&◌, ◌||◌}
pub use mathlib.Core.Option.{Option, none, some}
pub use mathlib.Core.List.{List, [], ◌∷◌, ◌++◌}
pub use native.Mathlib.Omega.{arith}
