-- ===== src/Base.antt =====
-- What the other modules share: the libraries' names, tests on numbers, lists with native
-- indices, `std::unordered_map` as an association list, and results that may fault.
mod Tests
mod Lists
mod Search
pub mod Maps
mod Results
mod Catching
pub mod Division
pub use Tests.*
pub use Lists.*
pub use Search.*
pub use Results.*
pub use Catching.*
pub use Prim.Native.Nat.{ℕ, zero, suc, ◌+◌, ◌-◌, ◌*◌, ◌/◌, ◌%◌, ◌^◌, ◌≤◌, ◌<◌, min}
pub use mathlib.Core.Path.{◌≡◌, refl, sym, ap, subst, ◌∙◌}
pub use mathlib.Core.Logic.{◌≢◌, ◌↔◌, ◌⊎◌, inl, inr}
pub use mathlib.Core.Bool.{Bool, true, false, not, ◌&&◌, ◌||◌}
pub use mathlib.Core.Option.{Option, none, some}
pub use mathlib.Core.List.{List, [], ◌∷◌, ◌++◌, map}
pub use native.Mathlib.Omega.{arith}
