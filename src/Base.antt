-- ===== src/Base.antt =====
-- The names that the other modules share: the libraries' and those of the children, passed on.
pub mod Tests
pub mod Lists
pub mod Dict
pub mod Result
pub use Prim.Native.Nat.{ℕ, zero, suc, ◌+◌, ◌-◌, ◌*◌, ◌/◌, ◌%◌, ◌^◌, ◌≤◌, ◌<◌, min}
pub use mathlib.Core.Path.{◌≡◌, refl, sym, ap, subst, ◌∙◌, fun_ext}
pub use mathlib.Core.Logic.{◌≢◌, ◌↔◌, ◌⊎◌, inl, inr}
pub use mathlib.Core.Bool.{Bool, true, false, not, ◌&&◌, ◌||◌}
pub use mathlib.Core.Option.{Option, none, some}
pub use mathlib.Core.List.{List, [], ◌∷◌, ◌++◌, map, reverse}
pub use native.Mathlib.Omega.{arith}
pub use Tests.{
  ltb, leb, ◌==◌, if◌then◌else◌, Bool-cases, Option-cases, true-ne-false, Key, nat_key, string_key,
  same,
}
unfoldable pub use Tests.{string_dec}
unfoldable pub use native.Mathlib.Decide.{ℕ_discrete}
