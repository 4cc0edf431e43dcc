-- ===== src/Base.antt =====
-- The names that the other modules share: those of the libraries, passed on, and those of the
-- children, which model what the node uses of Go itself (tests, slices, byte strings, UTF-8).
mod Tests
mod Lists
mod Order
mod Text
mod Utf8
mod Space
mod Split
mod Dict
mod Set
mod Sort
pub use Tests.*
unfoldable pub use Lists.*
unfoldable pub use Order.*
unfoldable pub use Text.*
unfoldable pub use Utf8.*
unfoldable pub use Space.*
unfoldable pub use Split.*
unfoldable pub use Dict.*
unfoldable pub use Set.*
unfoldable pub use Sort.*
pub use Prim.Native.Nat.{ℕ, zero, suc, ◌+◌, ◌-◌, ◌*◌, ◌/◌, ◌%◌, ◌^◌, ◌≤◌, ◌<◌}
pub use mathlib.Core.Path.{◌≡◌, refl, sym, ap, ◌∙◌}
pub use mathlib.Core.Logic.{◌≢◌, ◌↔◌, ◌⊎◌, inl, inr}
pub use mathlib.Core.Bool.{Bool, true, false, not, ◌&&◌, ◌||◌}
pub use mathlib.Core.Option.{Option, none, some}
pub use mathlib.Core.List.{List, [], ◌∷◌, ◌++◌, map, append-nil, append_assoc}
pub use native.Mathlib.Omega.{arith}
unfoldable pub use native.Mathlib.Decide.{dec_lt, ℕ_discrete}
