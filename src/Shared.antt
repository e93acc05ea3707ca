-- ===== src/Shared.antt =====
-- Names that the other modules share: the libraries', passed on, Boolean tests on numbers,
-- lists, dictionaries, stable sorting, text and JSON values.
mod Tests
mod Lists
mod Dict
mod Sort
mod Order
mod Text
mod Values
mod Integers
pub use Tests.*
unfoldable pub use Lists.*
unfoldable pub use Dict.*
unfoldable pub use Sort.*
unfoldable pub use Order.*
unfoldable pub use Text.*
unfoldable pub use Values.*
unfoldable pub use Integers.*
pub use Prim.Native.Nat.{ℕ, zero, suc, ◌+◌, ◌-◌, ◌*◌, ◌/◌, ◌%◌, ◌^◌, ◌≤◌, ◌<◌, min, max}
pub use Prim.Native.String.{String, ◌++◌ as text_append}
pub use mathlib.Core.Path.{◌≡◌, refl, sym, ap, ◌∙◌, subst}
pub use mathlib.Core.Logic.{◌≢◌, ◌↔◌, ◌⊎◌, inl, inr, ite}
pub use mathlib.Core.Bool.{Bool, true, false, ◌&&◌, ◌||◌, not}
pub use mathlib.Core.Option.{Option, none, some}
pub use mathlib.Core.List.{List, [], ◌∷◌, ◌++◌, map}
pub use native.Mathlib.Omega.{arith}
unfoldable pub use native.Mathlib.Decide.{dec_lt, dec_le, ℕ_discrete}
