-- ===== src/Common.antt =====
-- Shared names: the libraries', passed on, and those of two children.
mod Tests
mod Lists
pub mod Bits
pub use Tests.*
pub use Lists.*
pub use Prim.Native.Nat.{ℕ, zero, suc, ◌+◌, ◌-◌, ◌*◌, ◌/◌, ◌%◌, ◌^◌, ◌≤◌, ◌<◌}
pub use mathlib.Core.Path.{◌≡◌, refl, sym, ap, ◌∙◌, subst}
pub use mathlib.Core.Logic.{◌≢◌, ◌↔◌, ◌⊎◌, inl, inr}
pub use mathlib.Core.Bool.{Bool, true, false, ◌&&◌, ◌||◌, not}
pub use mathlib.Core.Option.{Option, none, some}
pub use mathlib.Core.List.{List, [], ◌∷◌, ◌++◌, map}
pub use native.Mathlib.Omega.{arith}

-- The largest value of a 64-bit unsigned integer, `std::numeric_limits<uint64_t>::max()`.
abbrev pub max_u64 : ℕ
max_u64 = 2 ^ 64 - 1

-- `std::min`.
abbrev pub min_of : ℕ → ℕ → ℕ
min_of a b = if ltb b a then b else a
