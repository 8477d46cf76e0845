-- ===== src/Prelude.antt =====
-- The names that every module shares: the libraries', passed on, Boolean tests and byte
-- arithmetic over the native numbers, C arrays as lists, and the rule sets of the tactics.
mod Tests
mod Lists
mod Arrays
mod Writes
mod Counts
pub mod Chains
pub mod Bits
pub mod Bytes
pub mod Digits
pub use Tests.*
pub use Lists.*
unfoldable pub use Arrays.*
pub use Writes.*
unfoldable pub use Counts.*
pub use Prim.Native.Nat.{ℕ, zero, suc, ◌+◌, ◌-◌, ◌*◌, ◌/◌, ◌%◌, ◌^◌, ◌≤◌, ◌<◌, min, max}
pub use mathlib.Core.Path.{◌≡◌, refl, sym, ap, ap₂, ◌∙◌, ◌≡⟨◌⟩◌, ◌∎}
pub use mathlib.Core.Logic.{◌≢◌, ◌↔◌, ◌⊎◌, inl, inr}
pub use mathlib.Core.Bool.{Bool, true, false, not, ◌&&◌, ◌||◌}
pub use mathlib.Core.Option.{Option, none, some}
pub use mathlib.Core.List.{List, [], ◌∷◌, ◌++◌, map, append-nil, append_assoc}
pub use native.Mathlib.Omega.{arith}
