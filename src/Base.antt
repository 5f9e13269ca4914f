-- ===== src/Base.antt =====
-- The names that the modules of the development share: the libraries', passed on, and those of the
-- children below (C's comparisons, lists with native indices, `int` words, outcomes of calls,
-- bit operations, copies between buffers, tabulation).
mod Tests
mod Lists
mod Word
mod Calls
mod Bits
mod Fields
mod Buffer
mod Tabulate
pub use Tests.*
pub use Lists.*
unfoldable pub use Word.*
pub use Calls.*
pub use Bits.*
pub use Fields.*
unfoldable pub use Buffer.*
unfoldable pub use Tabulate.*
pub use Prim.Native.Nat.{ℕ, zero, suc, ◌+◌, ◌-◌, ◌*◌, ◌/◌, ◌%◌, ◌^◌, ◌≤◌, ◌<◌, min}
pub use mathlib.Core.Path.{◌≡◌, refl, sym, ap, ap₂, ◌∙◌}
pub use mathlib.Core.Logic.{◌≢◌, ◌↔◌, ◌⊎◌, inl, inr}
pub use mathlib.Core.Bool.{Bool, true, false, not, ◌&&◌, ◌||◌}
pub use mathlib.Core.Option.{Option, none, some}
pub use mathlib.Core.List.{List, [], ◌∷◌, ◌++◌, map, append-nil, append_assoc}
pub use native.Mathlib.Omega.{arith}
unfoldable pub use native.Mathlib.Decide.{dec_lt, dec_le, ℕ_discrete}
