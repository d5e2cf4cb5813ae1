-- ===== src/Base.antt =====
-- What the modules share: library names passed on, tests on numbers, lists, byte strings,
-- ordered dictionaries and the outcome of code that may throw.
mod Tests
mod Lists
mod Keys
mod Outcomes
pub mod Int
pub mod Dict
pub use Tests.*
pub use Lists.*
pub use Keys.*
pub use Outcomes.*
pub use Prim.Native.Nat.{ℕ, zero, suc, ◌+◌, ◌-◌, ◌*◌, ◌/◌, ◌%◌, ◌^◌, ◌≤◌, ◌<◌}
pub use mathlib.Core.Path.{◌≡◌, refl, sym, ap, subst, ◌∙◌}
pub use mathlib.Core.Logic.{◌≢◌, ◌↔◌, ◌⊎◌, inl, inr}
pub use mathlib.Core.Bool.{Bool, true, false, not, ◌&&◌, ◌||◌}
pub use mathlib.Core.Option.{Option, none, some}
pub use mathlib.Core.List.{List, [], ◌∷◌, ◌++◌, map}
pub use native.Mathlib.Omega.{arith}
