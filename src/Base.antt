-- ===== src/Base.antt =====
-- What the other modules share: the libraries' names passed on, lists over the native numbers,
-- calls that may fail or panic, and byte strings.
mod Tests
mod Lists
mod Calls
mod Bytes
pub mod Int
pub mod Cuts
pub mod Search
pub use Tests.*
pub use Lists.*
unfoldable pub use Calls.*
unfoldable pub use Bytes.*
pub use Prim.Native.Nat.{ℕ, zero, suc, ◌+◌, ◌-◌, ◌*◌, ◌/◌, ◌%◌, ◌^◌, ◌≤◌, ◌<◌, min}
pub use Prim.Native.String.{String}
pub use mathlib.Core.Path.{◌≡◌, refl, sym, ap, ◌∙◌}
pub use mathlib.Core.Logic.{◌≢◌, ◌↔◌, ◌⊎◌, inl, inr}
pub use mathlib.Core.Bool.{Bool, true, false, not, ◌&&◌, ◌||◌}
pub use mathlib.Core.Option.{Option, none, some}
pub use mathlib.Core.List.{List, [], ◌∷◌, ◌++◌, map}
pub use native.Mathlib.Omega.{arith}
