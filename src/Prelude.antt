-- ===== src/Prelude.antt =====
-- The names that every module shares: the libraries', passed on, and those of the children, less the
-- values of JSON, which the modules that carry them take from their own file.
mod Tests
mod Int
mod Lists
mod Errors
mod Tables
pub mod Json
mod Maps
pub use Tests.*
unfoldable pub use Int.*
pub use Lists.*
pub use Errors.*
unfoldable pub use Tables.*
unfoldable pub use Maps.*
pub use Prim.Native.Nat.{ℕ, zero, suc, ◌+◌, ◌-◌, ◌*◌, ◌/◌, ◌%◌, ◌^◌, ◌≤◌, ◌<◌, min, max}
pub use mathlib.Core.Path.{◌≡◌, refl, sym, ap, ◌∙◌}
pub use mathlib.Core.Logic.{◌≢◌, ◌↔◌, ◌⊎◌, inl, inr}
pub use mathlib.Core.Bool.{Bool, true, false, not, ◌&&◌, ◌||◌}
pub use mathlib.Core.Option.{Option, none, some}
pub use mathlib.Core.List.{List, [], ◌∷◌, ◌++◌, map}
pub use native.Mathlib.Omega.{arith}
