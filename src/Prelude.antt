-- ===== src/Prelude.antt =====
-- The names that the other modules share: the libraries', passed on, and those of the children.
mod Tests
mod Lists
mod Tabulate
mod Modulo
mod Bits
pub use Tests.*
pub use Lists.*
pub use Tabulate.*
pub use Modulo.*
pub use Bits.*
pub use Prim.Native.Nat.{ℕ, zero, suc, ◌+◌, ◌-◌, ◌*◌, ◌/◌, ◌%◌, ◌^◌, ◌≤◌, ◌<◌, min, bit_and}
pub use mathlib.Core.Path.{◌≡◌, refl, sym, ap, ap₂, subst, ◌∙◌, fun_ext}
pub use mathlib.Core.Logic.{◌≢◌, ◌↔◌, ◌⊎◌, inl, inr}
pub use mathlib.Core.Bool.{Bool, true, false, not, ◌&&◌, ◌||◌}
pub use mathlib.Core.Option.{Option, none, some}
pub use mathlib.Core.List.{List, [], ◌∷◌, ◌++◌, map, append-nil, append_assoc}
pub use native.Mathlib.Omega.{arith}
pub use native.Mathlib.Nat.{
  pow-le-pow_right, add_assoc, two-pow-succ, one-le-pow, div-add-mod', mul-mod_left, mul-div-le,
  zero-mod, mul-le-mul_right, mod-lt, mod_self, mod-eq_of_lt, mod-add-mod, mod-eq-sub-mod,
}
unfoldable pub use native.Mathlib.Decide.{dec_lt, dec_le, ℕ_discrete}
