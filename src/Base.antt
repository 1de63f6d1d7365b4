-- ===== src/Base.antt =====
-- What the modules share: the libraries' names passed on, and those of the children.
mod Tests
mod Lists
mod Outcome
mod Text
pub mod Bits
pub mod Int
pub mod Net
pub mod Sort
pub mod Dict
pub mod Float
pub mod InsertionSort
pub mod Encoding
pub mod FilePath
pub mod Hex
pub mod Decimal
pub use Tests.*
pub use Lists.*
pub use Outcome.*
unfoldable pub use Text.*
pub use Prim.Native.Nat.{ℕ, zero, suc, ◌+◌, ◌-◌, ◌*◌, ◌/◌, ◌%◌, ◌^◌, ◌≤◌, ◌<◌}
pub use mathlib.Core.Path.{◌≡◌, refl, sym, ap, ◌∙◌}
pub use mathlib.Core.Logic.{◌≢◌, ◌↔◌, ◌⊎◌, inl, inr}
pub use mathlib.Core.Bool.{Bool, true, false, not, ◌&&◌, ◌||◌}
pub use mathlib.Core.Option.{Option, none, some}
pub use mathlib.Core.List.{List, [], ◌∷◌, ◌++◌, map}
pub use native.Mathlib.Omega.{arith}
