-- ===== src/Prelude.antt =====
-- What the modules of this development share: names of the libraries, tests on numbers, lists
-- over the native numbers, texts as lists of bytes, ordered dictionaries and signed integers.
mod Tests
mod Lists
mod Ints
pub mod Text
pub mod Dict
pub mod Splitting
pub mod Trimming
pub use Tests.*
pub use Lists.*
unfoldable pub use Ints.*
pub use Prim.Native.Nat.{ℕ, zero, suc, ◌+◌, ◌-◌, ◌*◌, ◌/◌, ◌%◌, ◌^◌, ◌≤◌, ◌<◌}
pub use Prim.Native.String.{String}
pub use mathlib.Core.Path.{◌≡◌, refl, sym, ap, ◌∙◌}
pub use mathlib.Core.Logic.{◌≢◌, ◌↔◌, ◌⊎◌, inl, inr}
pub use mathlib.Core.Bool.{Bool, true, false, not, ◌&&◌, ◌||◌}
pub use mathlib.Core.Option.{Option, none, some}
pub use mathlib.Core.List.{List, [], ◌∷◌, ◌++◌, map}
pub use native.Mathlib.Omega.{arith}
