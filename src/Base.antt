-- ===== src/Base.antt =====
-- The names that every module shares: the libraries' passed on, Boolean tests on numbers and
-- texts, Python's `any`, `in`, `sorted` and `set` on lists, and the lemmas about them.
pub mod Tests
pub mod Lists
pub mod Text
pub mod Sorting
pub mod Words
pub mod Repeats
pub mod Ascending
pub use Tests.*
pub use Lists.*
pub use Prim.Native.Nat.{ℕ, zero, suc, ◌+◌, ◌-◌, ◌*◌, ◌≤◌, ◌<◌, max}
pub use mathlib.Core.Path.{◌≡◌, refl, sym, ap, subst, ◌∙◌}
pub use mathlib.Core.Logic.{◌≢◌, ◌↔◌, ◌⊎◌, inl, inr}
pub use mathlib.Core.Bool.{Bool, true, false, not, ◌&&◌, ◌||◌}
pub use mathlib.Core.Option.{Option, none, some}
pub use mathlib.Core.List.{List, [], ◌∷◌, ◌++◌, map}
pub use native.Mathlib.Omega.{arith}
