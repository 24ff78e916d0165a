-- ===== src/Prelude.antt =====
-- Names that the components share: the libraries' names passed on, tests on numbers, lists and
-- bytes over the native numbers, and Rust's `Result`.
pub mod Tests
pub mod Lists
pub mod Bytes
pub mod Outcome
pub mod Search
pub mod Maps
pub mod Bits
pub use Tests.{ltb, leb, ◌==◌, if◌then◌else◌, Bool-cases, Option-cases}
pub use Lists.{length, length-append, get_or, set, take, drop, All}
pub use Outcome.{Result, ok, err}
pub use Prim.Native.Nat.{ℕ, zero, suc, ◌+◌, ◌-◌, ◌*◌, ◌/◌, ◌%◌, ◌^◌, ◌≤◌, ◌<◌}
pub use mathlib.Core.Path.{◌≡◌, refl, sym, ap, ◌∙◌}
pub use mathlib.Core.Logic.{◌≢◌, ◌↔◌, ◌⊎◌, inl, inr}
pub use mathlib.Core.Bool.{Bool, true, false, not, ◌&&◌, ◌||◌}
pub use mathlib.Core.Option.{Option, none, some}
pub use mathlib.Core.List.{List, [], ◌∷◌, ◌++◌, append-nil, append_assoc}
pub use native.Mathlib.Omega.{arith}
