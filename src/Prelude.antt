-- ===== src/Prelude.antt =====
-- The names that every part of the development shares: the libraries', passed on, the Boolean
-- tests and lists over native numbers, equality as an interface, hash maps and stable sorting.
mod Tests
mod Lists
mod Equality
pub mod HashMap
pub mod HashSet
pub mod Sort
pub mod Bytes
pub mod Chars
pub mod Results
pub mod Numbers
pub use Tests.*
pub use Lists.*
pub use Equality.*
pub use Prim.Native.Nat.{ℕ, zero, suc, ◌+◌, ◌-◌, ◌*◌, ◌/◌, ◌%◌, ◌^◌, ◌≤◌, ◌<◌, min, max}
pub use Prim.Native.String.{String}
pub use mathlib.Core.Path.{◌≡◌, refl, sym, ap, ◌∙◌, subst}
pub use mathlib.Core.Logic.{◌≢◌, ◌↔◌, ◌⊎◌, inl, inr}
pub use mathlib.Core.Bool.{Bool, true, false, not, ◌&&◌, ◌||◌}
pub use mathlib.Core.Option.{Option, none, some}
pub use mathlib.Core.List.{List, [], ◌∷◌, ◌++◌, map}
pub use native.Mathlib.Omega.{arith}
