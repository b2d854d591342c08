-- ===== src/Base.antt =====
-- The names that the modules share: the library's, passed on, with Boolean tests, measured lists,
-- signed integers and text constants.
mod Tests
mod Lists
mod Int
mod Text
mod Table
mod Ring
pub use Tests.*
pub use Lists.*
pub use Int.*
pub use Text.*
pub use Table.*
pub use Ring.*
pub use Prim.Native.Nat.{ℕ, zero, suc, ◌+◌, ◌-◌, ◌*◌, ◌/◌, ◌%◌, ◌^◌, ◌≤◌, ◌<◌, min, max}
pub use mathlib.Core.Path.{◌≡◌, refl, sym, ap, ap₂, subst, ◌∙◌}
pub use mathlib.Core.Logic.{◌≢◌, ◌↔◌, ◌⊎◌, inl, inr}
pub use mathlib.Core.Bool.{Bool, true, false, not, ◌&&◌, ◌||◌}
pub use mathlib.Core.Option.{Option, none, some}
pub use mathlib.Core.List.{List, [], ◌∷◌, ◌++◌, append-nil, append_assoc, reverse, reverse-append}
pub use native.Mathlib.Omega.{arith}
