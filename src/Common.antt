-- ===== src/Common.antt =====
-- The names that the other modules share: the libraries', passed on, and those of the children.
mod Tests
mod Lists
mod Everywhere
mod Ranges
mod Integers
mod Text
pub mod Bits
mod Utf8
pub mod Paths
pub mod Parents
unfoldable pub use Paths.{decimal, parent, join}
pub use Paths.{characters}
unfoldable pub use Utf8.{is_utf8}
pub use Tests.*
pub use Lists.*
pub use Everywhere.*
pub use Ranges.{StandsAt, StandsAt-append, StandsAt-chain, take-StandsAt}
pub use Integers.*
pub use Text.*
pub use Prim.Native.Nat.{ℕ, zero, suc, ◌+◌, ◌-◌, ◌*◌, ◌/◌, ◌%◌, ◌^◌, ◌≤◌, ◌<◌, min, max}
pub use Prim.Native.String.{String, ◌++◌ as ◌<>◌}
pub use mathlib.Core.Path.{◌≡◌, refl, sym, ap, subst, ◌∙◌}
pub use mathlib.Core.Logic.{◌≢◌, ◌↔◌, ◌⊎◌, inl, inr}
pub use mathlib.Core.Bool.{Bool, true, false, not, ◌&&◌, ◌||◌}
pub use mathlib.Core.Option.{Option, none, some}
pub use mathlib.Core.List.{List, [], ◌∷◌, ◌++◌, map, append-nil, append_assoc}
pub use native.Mathlib.Omega.{arith}
