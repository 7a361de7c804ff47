-- ===== src/Base.antt =====
-- Names that every other module shares: the libraries' and those of the children, passed on.
mod Tests
mod Int
mod Lists
mod Runs
mod Decimal
mod Text
unfoldable pub use Tests.*
unfoldable pub use Int.{◌+ℤ◌, ◌*ℤ◌, sub_ℕ, to_int, narrow}
pub use Int.{ℤ, pos, negsuc, pos_part, neg_part, ◌≤ℤ◌, ltb_ℤ, leb_ℤ}
unfoldable pub use Lists.*
unfoldable pub use Runs.*
unfoldable pub use Decimal.{to_string}
pub use Text.{Codes, codes}
pub use Prim.Native.Nat.{ℕ, zero, suc, ◌+◌, ◌-◌, ◌*◌, ◌/◌, ◌%◌, ◌^◌, ◌≤◌, ◌<◌}
pub use Prim.Native.String.{String}
pub use mathlib.Core.Path.{◌≡◌, refl, sym, ap, subst, ◌∙◌}
pub use mathlib.Core.Logic.{◌≢◌, ◌↔◌, ◌⊎◌, inl, inr}
pub use mathlib.Core.Bool.{Bool, true, false, not, ◌&&◌, ◌||◌}
pub use mathlib.Core.Option.{Option, none, some}
pub use mathlib.Core.List.{List, [], ◌∷◌, ◌++◌}
pub use native.Mathlib.Omega.{arith}
