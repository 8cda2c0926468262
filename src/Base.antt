-- ===== src/Base.antt =====
-- What the components share: the libraries' names, tests, lists, text, integers and maps.
mod Tests
mod Lists
mod Strings
mod Int
mod Keys
mod BigInt
mod Sort
mod SortUp
mod Switch
mod Promise
pub mod Map
pub use Tests.*
pub use Lists.*
unfoldable pub use Strings.*
unfoldable pub use Int.*
unfoldable pub use Keys.*
unfoldable pub use BigInt.*
pub use Sort.*
pub use SortUp.*
pub use Switch.*
pub use Promise.*
pub use Prim.Native.Nat.{ℕ, zero, suc, ◌+◌, ◌-◌, ◌*◌, ◌/◌, ◌%◌, ◌^◌, ◌≤◌, ◌<◌, min, max}
pub use mathlib.Core.Path.{◌≡◌, refl, sym, ap, ◌∙◌, subst}
pub use mathlib.Core.Logic.{◌≢◌, ◌↔◌, ◌⊎◌, inl, inr}
pub use mathlib.Core.Bool.{Bool, true, false, not, ◌&&◌, ◌||◌}
pub use mathlib.Core.Option.{Option, none, some}
pub use mathlib.Core.List.{List, [], ◌∷◌, ◌++◌, map}
pub use native.Mathlib.Omega.{arith}
