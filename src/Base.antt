-- ===== src/Base.antt =====
-- Names that the other modules share: those of the libraries, passed on, and the two children's.
mod Tests
mod Lists
mod Text
pub use Tests.*
pub use Lists.*
pub use Text.{codes, lower, is_space, digit, Number}
unfoldable pub use Text.{
  same_caseless, has_prefix, split_at, skip_space, drop_space, first_word, read_digits, strtoul,
  strtoul_10, words,
}
pub use Prim.Native.Nat.{ℕ, zero, suc, ◌+◌, ◌-◌, ◌*◌, ◌/◌, ◌%◌, ◌^◌, ◌≤◌, ◌<◌, min}
pub use mathlib.Core.Path.{◌≡◌, refl, sym, ap, ap₂, subst, fun_ext, ◌∙◌}
pub use mathlib.Core.Logic.{◌≢◌, ◌↔◌, ◌⊎◌, inl, inr}
pub use mathlib.Core.Bool.{Bool, true, false, not, ◌&&◌, ◌||◌}
pub use mathlib.Core.Option.{Option, none, some}
pub use mathlib.Core.List.{List, [], ◌∷◌, ◌++◌, map, append_assoc, append-nil}
pub use native.Mathlib.Omega.{arith}
unfoldable pub use native.Mathlib.Decide.{dec_lt, dec_le, ℕ_discrete}
