-- ===== src/Prelude.antt =====
-- Shared names: those of the libraries, passed on, and those of the children. Nothing here is
-- code of the repository.
mod Tests
mod Lists
mod Texts
mod Slices
pub mod Sorting
pub mod Int
pub mod Decimal
pub mod Dict
pub use Tests.*
pub use Lists.*
pub use Slices.*
unfoldable pub use Texts.*
pub use Prim.Native.Nat.{ℕ, zero, suc, ◌+◌, ◌-◌, ◌*◌, ◌/◌, ◌%◌, ◌^◌, ◌≤◌, ◌<◌, min, max}
pub use Prim.Native.String.{String}
pub use mathlib.Core.Path.{◌≡◌, refl, sym, ap, ap₂, ◌∙◌, subst}
pub use mathlib.Core.Logic.{◌≢◌, ◌↔◌, ◌⊎◌, inl, inr}
pub use mathlib.Core.Bool.{Bool, true, false, not, ◌&&◌, ◌||◌}
pub use mathlib.Core.Option.{Option, none, some}
pub use mathlib.Core.List.{List, [], ◌∷◌, ◌++◌, map, foldl, map-append, append-nil, append_assoc}
pub use native.Mathlib.Omega.{arith}
