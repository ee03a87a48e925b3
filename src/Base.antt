-- ===== src/Base.antt =====
-- The names that all modules share: the libraries' passed on, tests, integers, 64-bit words, lists,
-- texts, the action monad and maps.
pub mod Tests
pub mod Int
pub mod Lists
pub mod Maps
pub mod Int64
pub mod Exec
pub mod Float
pub mod Text
pub mod TextOrder
pub mod Trim
pub mod Time
pub mod Calendar
pub mod ParseDuration
pub mod Workers
pub use Tests.*
pub use Text.{◌<>◌, codes}
unfoldable pub use Text.{bytes, format_int}
pub use Prim.Native.Nat.{ℕ, zero, suc, ◌+◌, ◌-◌, ◌*◌, ◌/◌, ◌%◌, ◌^◌, ◌≤◌, ◌<◌}
pub use Prim.Native.String.{String}
pub use mathlib.Core.Path.{◌≡◌, refl, sym, ap, ◌∙◌}
pub use mathlib.Core.Logic.{◌≢◌, ◌↔◌, ◌⊎◌, inl, inr}
pub use mathlib.Core.Bool.{Bool, true, false, ◌&&◌, ◌||◌, not}
pub use mathlib.Core.Option.{Option, none, some}
pub use mathlib.Core.List.{List, [], ◌∷◌, ◌++◌, map}
pub use native.Mathlib.Omega.{arith}
pub use text.Mathlib.Text.{◌==◌}
pub use text.Mathlib.TextEquality.{eq_iff}
