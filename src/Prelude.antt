-- ===== src/Prelude.antt =====
-- The names that every module shares: the libraries', passed on, and those of its children.
mod Tests
mod Lists
mod Texts
mod Words
mod Maps
mod Decimal
mod Numerals
mod Digits
mod Utf8
pub use Tests.*
pub use Lists.*
unfoldable pub use Texts.*
pub use Words.*
unfoldable pub use Decimal.*
pub use Numerals.*
pub use Digits.*
unfoldable pub use Maps.*
unfoldable pub use Utf8.*
pub use Prim.Native.Nat.{ℕ, zero, suc, ◌+◌, ◌-◌, ◌*◌, ◌/◌, ◌%◌, ◌^◌, ◌≤◌, ◌<◌}
pub use mathlib.Core.Path.{◌≡◌, refl, sym, ap, ◌∙◌, subst}
pub use mathlib.Core.Logic.{◌≢◌, ◌↔◌, ◌⊎◌, inl, inr}
pub use mathlib.Core.Bool.{Bool, true, false, not, ◌&&◌, ◌||◌}
pub use mathlib.Core.Option.{Option, none, some}
pub use mathlib.Core.List.{List, [], ◌∷◌, ◌++◌, map, append-nil, append_assoc}
pub use native.Mathlib.Omega.{arith}
