-- ===== src/Base.antt =====
-- Names shared by every module: the libraries' numbers, lists, options and paths, passed on, and
-- the tests, table operations, texts and integers of the child modules.
mod Tests
pub mod Table
pub mod Order
pub mod Rows
pub mod Text
pub mod Int
pub use Tests.*
pub use Prim.Native.Nat.{ℕ, zero, suc, ◌+◌, ◌-◌, ◌*◌, ◌/◌, ◌%◌, ◌^◌, ◌≤◌, ◌<◌}
pub use mathlib.Core.Path.{◌≡◌, refl, sym, ap, ◌∙◌}
pub use mathlib.Core.Logic.{◌≢◌, ◌↔◌, ◌⊎◌, inl, inr}
pub use mathlib.Core.Bool.{Bool, true, false, not, ◌&&◌, ◌||◌}
pub use mathlib.Core.Option.{Option, none, some}
pub use mathlib.Core.List.{List, [], ◌∷◌, ◌++◌, map}
pub use native.Mathlib.Omega.{arith}

-- A UUID as a 128-bit number; `uuid.Nil` is 0.
abbrev pub Uuid : Type 0
Uuid = ℕ

-- A `time.Time` as nanoseconds since Go's zero time.
abbrev pub Time : Type 0
Time = ℕ
