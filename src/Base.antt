-- ===== src/Base.antt =====
-- The names that every component shares: the libraries', passed on, and those of its children.
mod Tests
mod Lists
mod Dict
mod Int
pub use Tests.*
pub use Lists.*
unfoldable pub use Dict.{lookup, insert, remove}
pub use Dict.{
  lookup-insert, lookup-remove, lookup-insert_self, same_refl, same_comm, lookup-same,
  lookup-absent, IsMap, IsMap-insert, IsMap-remove,
}
unfoldable pub use Int.{to_int32}
pub use Int.{
  ℤ, pos, negsuc, pos_part, neg_part, ltb_ℤ, leb_ℤ, ℤ_beq_iff, int_eq, sub_ℕ, to_int32-small,
}
pub use Prim.Native.Nat.{ℕ, zero, suc, ◌+◌, ◌-◌, ◌*◌, ◌/◌, ◌%◌, ◌^◌, ◌≤◌, ◌<◌, min}
pub use Prim.Native.String.{String}
pub use mathlib.Core.Path.{◌≡◌, refl, sym, ap, ap₂, subst, ◌∙◌}
pub use mathlib.Core.Logic.{◌≢◌, ◌↔◌, ◌⊎◌, inl, inr}
pub use mathlib.Core.Bool.{Bool, true, false, not, ◌&&◌, ◌||◌}
pub use mathlib.Core.Option.{Option, none, some, some-injective}
pub use mathlib.Core.List.{List, [], ◌∷◌, ◌++◌, map, append-nil, append_assoc, map-append}
pub use native.Mathlib.Omega.{arith}
