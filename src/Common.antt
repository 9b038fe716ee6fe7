-- ===== src/Common.antt =====
-- The names that every part of the development shares: the libraries', passed on, and the
-- helpers of the children. `Lists` and `Order` are general; `Bytes` models the byte slices and
-- the big-endian integers of Rust's core library, `Utf8` its strings, and `SortedMap` the
-- `BTreeMap` keyed by `u64` of its collections.
mod Order
mod Lists
pub mod Bytes
pub mod Utf8
pub mod SortedMap
pub mod Word
pub mod Table
pub mod Assoc
pub mod Text
pub use Order.*
unfoldable pub use Lists.*
pub use Prim.Native.Nat.{ℕ, zero, suc, ◌+◌, ◌-◌, ◌*◌, ◌/◌, ◌%◌, ◌^◌, ◌≤◌, ◌<◌, min}
pub use mathlib.Core.Path.{◌≡◌, refl, sym, ap, ◌∙◌}
pub use mathlib.Core.Logic.{◌≢◌, ◌↔◌, ◌⊎◌, inl, inr}
pub use mathlib.Core.Bool.{Bool, true, false, ◌&&◌, ◌||◌, not}
pub use mathlib.Core.Option.{Option, none, some}
pub use mathlib.Core.List.{List, [], ◌∷◌, ◌++◌, map, append-nil, append_assoc}
pub use native.Mathlib.Omega.{arith}
