-- ===== src/Prelude.antt =====
-- What the other modules share: the library's names, passed on, tests on numbers, lists measured by
-- native numbers, and membership as a Boolean test. `add64` and `sat_sub` are Rust's wrapping and
-- saturating arithmetic on u64.
mod Tests
mod Lists
mod Results
mod Takes
pub use Tests.*
pub use Results.*
pub use Takes.*
unfoldable pub use Lists.*
pub use Prim.Native.Nat.{ℕ, zero, suc, ◌+◌, ◌-◌, ◌*◌, ◌/◌, ◌%◌, ◌^◌, ◌≤◌, ◌<◌, min, max}
pub use mathlib.Core.Path.{◌≡◌, refl, sym, ap, ◌∙◌}
pub use mathlib.Core.Logic.{◌≢◌, ◌↔◌, ◌⊎◌, inl, inr}
pub use mathlib.Core.Bool.{Bool, true, false, not, ◌&&◌, ◌||◌}
pub use mathlib.Core.Option.{Option, none, some}
pub use mathlib.Core.List.{List, [], ◌∷◌, ◌++◌, map}
pub use native.Mathlib.Omega.{arith}
