-- ===== src/Base.antt =====
-- The names that every component shares: the libraries', passed on, and those of the children
-- (tests, lists, records of JavaScript objects, time, and state with exceptions).
mod Tests
mod Lists
mod Keys
mod Unlike
mod Text
mod Split
mod Time
mod Effects
mod Maps
mod Trimming
pub mod Json
pub mod Int
pub mod Sorting
pub use Tests.*
unfoldable pub use Text.*
unfoldable pub use Split.*
pub use Lists.*
pub use Keys.*
pub use Unlike.*
pub use Time.*
unfoldable pub use Maps.*
pub use Trimming.*
unfoldable pub use Effects.*
pub use Prim.Native.Nat.{ℕ, zero, suc, ◌+◌, ◌-◌, ◌*◌, ◌/◌, ◌%◌, ◌≤◌, ◌<◌, max, min}
pub use Prim.Native.String.{String}
pub use mathlib.Core.Path.{◌≡◌, refl, sym, ap, ◌∙◌}
pub use mathlib.Core.Logic.{◌≢◌, ◌↔◌, ◌⊎◌, inl, inr}
pub use mathlib.Core.Bool.{Bool, true, false, not, ◌&&◌, ◌||◌}
pub use mathlib.Core.Option.{Option, none, some}
pub use mathlib.Core.List.{List, [], ◌∷◌, ◌++◌, map}
pub use native.Mathlib.Omega.{arith}
pub use text.Mathlib.Text.{◌==◌}
pub use text.Mathlib.TextEquality.{eq_iff}
