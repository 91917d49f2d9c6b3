-- ===== src/Base.antt =====
-- The names that the other modules share: the libraries', passed on, and those of the children.
pub mod Tests
pub mod Lists
pub mod Outcome
pub mod Bytes
pub mod Fields
pub mod Bits
pub mod BitArray
pub mod Count
pub mod Assoc
pub use Prim.Native.Nat.{ℕ, zero, suc, ◌+◌, ◌-◌, ◌*◌, ◌/◌, ◌%◌, ◌^◌, ◌≤◌, ◌<◌, min}
pub use mathlib.Core.Path.{◌≡◌, refl, sym, ap, ap₂, ◌∙◌, subst}
pub use mathlib.Core.Logic.{◌≢◌, ◌↔◌, ◌⊎◌, inl, inr}
pub use mathlib.Core.Bool.{Bool, true, false, not, ◌&&◌, ◌||◌}
pub use mathlib.Core.Option.{Option, none, some}
pub use mathlib.Core.List.{List, [], ◌∷◌, ◌++◌, map, append-nil, append_assoc}
pub use native.Mathlib.Omega.{arith}
pub use Tests.{
  ltb, leb, ◌==◌, if◌then◌else◌, ltb→lt, lt→ltb, leb→le, ==_iff, tests, Bool-cases, Option-cases,
  is_some,
}
pub use Lists.{
  length, get_or, set, take, drop, slice, replicate, concat, All, length-append, length-take,
  length-drop, length-replicate, replicate-append, length-set, get_or-set, take-append, drop-append,
  slice-append, All-append, append-take-drop, drop_all, drop_behind, slice_behind, get_or_behind,
  All-take, drop-replicate,
}
pub use Outcome.{Result, ok, err, ◌>>=◌, ◌>>◌, Result-cases, bind-ok}
pub use Bytes.{IsByte, IsU16, IsU32, IsU64, length-to_le, to_le-IsByte, from_le-to_le}
unfoldable pub use Bytes.{to_le, from_le}
