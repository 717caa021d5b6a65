-- ===== src/Base.antt =====
-- What the modules share: the library's names passed on, Boolean tests, lists, Python dicts, floats.
mod Tests
mod Lists
mod Dicts
mod Results
mod Integers
mod Sets
mod Sorts
mod Extremes
mod Members
mod Floating
mod Texts
pub use Tests.*
pub use Lists.*
pub use Dicts.*
pub use Results.*
pub use Integers.*
pub use Sets.*
pub use Sorts.*
pub use Extremes.*
pub use Members.*
pub use Floating.*
unfoldable pub use Texts.*
pub use Prim.Native.Nat.{ℕ, zero, suc, ◌+◌, ◌-◌, ◌*◌, ◌/◌, ◌%◌, ◌^◌, ◌≤◌, ◌<◌}
pub use Prim.Native.String.{String}
pub use mathlib.Core.Path.{◌≡◌, refl, sym, ap, ◌∙◌, fun_ext, subst}
pub use mathlib.Core.Logic.{◌≢◌, ◌↔◌, ◌⊎◌, inl, inr}
pub use mathlib.Core.Bool.{Bool, true, false, not, ◌&&◌, ◌||◌}
pub use mathlib.Core.Option.{Option, none, some}
pub use mathlib.Core.List.{List, [], ◌∷◌, ◌++◌, map}
pub use native.Mathlib.Omega.{arith}
unfoldable pub use native.Mathlib.Decide.{ℕ_discrete, dec_lt, dec_le}
