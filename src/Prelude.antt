-- ===== src/Prelude.antt =====
-- The names that every other module shares: those of the libraries, passed on, and those of the
-- children, which hold Boolean tests, lists over native numbers, outcomes and byte strings.
pub mod Tests
pub mod Lists
pub mod Repeats
pub mod Outcomes
pub mod Text
pub mod Int
pub use Tests.*
pub use Lists.*
pub use Repeats.*
unfoldable pub use Int.*
pub use Outcomes.*
unfoldable pub use Text.*
pub use Prim.Native.Nat.{ℕ, zero, suc, ◌+◌, ◌-◌, ◌*◌, ◌/◌, ◌%◌, ◌^◌, ◌≤◌, ◌<◌}
pub use Prim.Native.String.{String}
pub use mathlib.Core.Path.{◌≡◌, refl, sym, ap, ◌∙◌, subst}
pub use mathlib.Core.Logic.{◌≢◌, ◌↔◌, ◌⊎◌, inl, inr}
pub use mathlib.Core.Bool.{Bool, true, false, not, ◌&&◌, ◌||◌}
pub use mathlib.Core.Option.{Option, none, some}
pub use mathlib.Core.List.{List, [], ◌∷◌, ◌++◌, map, append_assoc, append-nil}
pub use native.Mathlib.Omega.{arith}
