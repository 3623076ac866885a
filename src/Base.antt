-- ===== src/Base.antt =====
-- The names that every component shares: those of the libraries, passed on, and the helpers of the
-- children on Boolean tests, on lists over the native numbers, and on tables of rows.
mod Tests
mod Table
mod Text
mod Counts
mod Rows
mod Find
mod Sums
pub use Tests.*
pub use Table.*
pub use Text.*
pub use Counts.*
pub use Rows.*
pub use Find.*
pub use Sums.*
pub use Prim.Native.Nat.{ℕ, zero, suc, ◌+◌, ◌-◌, ◌*◌, ◌/◌, ◌%◌, ◌^◌, ◌≤◌, ◌<◌}
pub use Prim.Native.String.{String}
pub use mathlib.Core.Path.{◌≡◌, refl, sym, ap, subst, ◌∙◌}
pub use mathlib.Core.Logic.{◌≢◌, ◌↔◌, ◌⊎◌, inl, inr}
pub use mathlib.Core.Bool.{Bool, true, false, ◌&&◌, ◌||◌, not}
pub use mathlib.Core.Option.{Option, none, some}
pub use mathlib.Core.List.{List, [], ◌∷◌, ◌++◌, map}
pub use native.Mathlib.Omega.{arith}
pub use text.Mathlib.Text.{◌==◌ as str_eq}
pub use text.Mathlib.TextEquality.{eq_iff}
