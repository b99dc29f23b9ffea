-- ===== src/Prelude.antt =====
-- The names that the other modules share: the libraries', passed on, and those of the children.
mod Tests
mod Lists
mod Words
mod Errors
mod Bits
mod Rotate
mod Ring
mod Masks
mod Memory
mod Align
pub use Tests.*
pub use Lists.*
unfoldable pub use Words.{rol32, align_to}
pub use Words.{wrap32, wrap64, max64, not64}
pub use Errors.*
pub use Bits.*
pub use Rotate.*
pub use Align.*
pub use Masks.*
pub use Ring.*
pub use Memory.{
  length-overwrite, drop_all, take_first, overwrite-nil, drop-take-overwrite, take-nil, drop-nil,
  drop-drop, take-append_le, take-append_ge, take-take, take-drop,
}
unfoldable pub use Memory.{overwrite}
pub use Prim.Native.Nat.{ℕ, zero, suc, ◌+◌, ◌-◌, ◌*◌, ◌/◌, ◌%◌, ◌^◌, ◌≤◌, ◌<◌, min, max}
pub use Prim.Native.Nat.{bit_and, bit_or, bit_xor}
pub use mathlib.Core.Path.{◌≡◌, refl, sym, ap, ap₂, ◌∙◌, subst}
pub use mathlib.Core.Logic.{◌≢◌, ◌↔◌, ◌⊎◌, inl, inr}
pub use mathlib.Core.Bool.{Bool, true, false, not, ◌&&◌, ◌||◌}
pub use mathlib.Core.Option.{Option, none, some}
pub use mathlib.Core.List.{List, [], ◌∷◌, ◌++◌, map, append-nil, append_assoc}
pub use native.Mathlib.Omega.{arith}
unfoldable pub use native.Mathlib.Decide.{dec_lt, dec_le, ℕ_discrete}
