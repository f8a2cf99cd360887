-- ===== src/Prelude.antt =====
-- The names that every module shares: the libraries', passed on, with byte texts, Boolean tests,
-- lists measured by native numbers, and the outcomes of a Go call.
mod Tests
mod Lists
mod ByteText
mod GoCall
pub mod Int
pub mod Chain
pub use Tests.*
pub use Lists.*
pub use ByteText.*
unfoldable pub use ByteText.{eq_bytes}
pub use GoCall.*
pub use Prim.Native.Nat.{ℕ, zero, suc, ◌+◌, ◌-◌, ◌*◌, ◌/◌, ◌%◌, ◌^◌, ◌≤◌, ◌<◌}
pub use Prim.Native.String.{String}
pub use mathlib.Core.Path.{◌≡◌, refl, sym, ap, ◌∙◌, subst}
pub use mathlib.Core.Logic.{◌≢◌, ◌↔◌, ◌⊎◌, inl, inr}
pub use mathlib.Core.Bool.{Bool, true, false, not, ◌&&◌, ◌||◌}
pub use mathlib.Core.Option.{Option, none, some}
pub use mathlib.Core.List.{List, [], ◌∷◌, ◌++◌, map, append_assoc, append-nil}
pub use native.Mathlib.Omega.{arith}
