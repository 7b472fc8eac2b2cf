-- ===== src/Prelude.antt =====
-- The names that the modules share: the libraries', passed on, tests on native numbers, lists
-- measured by native numbers, and the byte codecs of Go's encoding/binary.
mod Tests
mod Lists
mod Sets
mod Binary
pub use Tests.*
pub use Lists.*
unfoldable pub use Sets.*
unfoldable pub use Binary.*
pub use Prim.Native.Nat.{
  ℕ, zero, suc, ◌+◌, ◌-◌, ◌*◌, ◌/◌, ◌%◌, ◌^◌, ◌≤◌, ◌<◌, min, max, compare, Ordering,
}
pub use mathlib.Core.Path.{◌≡◌, refl, sym, ap, subst, ◌∙◌}
pub use mathlib.Core.Logic.{◌≢◌, ◌↔◌, ◌⊎◌, inl, inr}
pub use mathlib.Core.Bool.{Bool, true, false, not, ◌&&◌, ◌||◌}
pub use mathlib.Core.Option.{Option, none, some}
pub use mathlib.Core.List.{List, [], ◌∷◌, ◌++◌, map}
pub use native.Mathlib.Omega.{arith}
