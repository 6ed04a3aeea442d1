-- ===== src/Base.antt =====
-- The names that the other modules share: the libraries', passed on, and those of the children.
-- The children hold the Boolean tests, lists measured by native numbers, 64-bit words and the
-- clock, texts as lists of bytes, and Go maps as association lists.
mod Tests
mod Lists
mod Words
mod Text
mod Assoc
mod Sorting
pub use Tests.*
pub use Lists.*
pub use Words.*
unfoldable pub use Text.*
unfoldable pub use Assoc.{lookup, insert, erase, keys_where, erase_all, IsUnique}
pub use Assoc.*
unfoldable pub use Sorting.{insert_by, sort_by}
pub use Sorting.*
pub use Prim.Native.Nat.{ℕ, zero, suc, ◌+◌, ◌-◌, ◌*◌, ◌/◌, ◌%◌, ◌^◌, ◌≤◌, ◌<◌, min, max}
pub use Prim.Native.String.{String}
pub use mathlib.Core.Path.{◌≡◌, refl, sym, ap, ◌∙◌}
pub use mathlib.Core.Logic.{◌≢◌, ◌↔◌, ◌⊎◌, inl, inr}
pub use mathlib.Core.Bool.{Bool, true, false, not, ◌&&◌, ◌||◌}
pub use mathlib.Core.Option.{Option, none, some}
pub use mathlib.Core.List.{List, [], ◌∷◌, ◌++◌, map}
pub use native.Mathlib.Omega.{arith}
pub use text.Mathlib.Text.{◌==◌ as str_eq}
pub use text.Mathlib.TextEquality.{eq_iff}
pub use text.Mathlib.TextPositions.{eq_refl}
