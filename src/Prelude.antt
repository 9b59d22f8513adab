-- ===== src/Prelude.antt =====
-- The names that the modules of this library share: those of mathlib and of the native numbers,
-- passed on, and the Boolean tests, the list functions and the machine words and counts of the children.
mod Tests
mod Lists
mod Family
mod Text
mod Count
pub use Tests.*
pub use Lists.*
pub use Family.*
pub use Text.*
pub use Count.*
unfoldable pub use Text.{cut, strip_prefix}
unfoldable pub use Count.{count}
pub use Prim.Native.Nat.{ℕ, zero, suc, ◌+◌, ◌-◌, ◌*◌, ◌/◌, ◌%◌, ◌^◌, ◌≤◌, ◌<◌, min}
pub use Prim.Native.String.{String}
pub use mathlib.Core.Path.{◌≡◌, refl, sym, ap, ap₂, ◌∙◌, fun_ext}
pub use mathlib.Core.Logic.{◌≢◌, ◌↔◌, ◌⊎◌, inl, inr}
pub use mathlib.Core.Bool.{Bool, true, false, not, ◌&&◌, ◌||◌}
pub use mathlib.Core.Option.{Option, none, some}
pub use mathlib.Core.List.{List, [], ◌∷◌, ◌++◌, map, append-nil, append_assoc}
pub use native.Mathlib.Omega.{arith}
unfoldable pub use native.Mathlib.Decide.{dec_lt, ℕ_discrete}
