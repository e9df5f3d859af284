-- ===== src/Common.antt =====
-- Names that every part of the development shares: those of the libraries, passed on, and those of
-- the child modules. Nothing here models the repository's own code.
mod Tests
mod Lists
mod Sorting
mod Mapped
mod Found
mod Results
pub use Tests.*
pub use Sorting.*
pub use Lists.*
pub use Mapped.*
pub use Found.*
pub use Results.*
pub use Prim.Native.Nat.{ℕ, zero, suc, ◌+◌, ◌-◌, ◌*◌, ◌/◌, ◌%◌, ◌≤◌, ◌<◌, min, max}
pub use mathlib.Core.Path.{◌≡◌, refl, sym, ap, ◌∙◌, subst}
pub use mathlib.Core.Logic.{◌≢◌, ◌⊎◌, inl, inr, ◌↔◌}
pub use mathlib.Core.Bool.{Bool, true, false, not, ◌&&◌, ◌||◌}
pub use mathlib.Core.Option.{Option, none, some}
pub use mathlib.Core.List.{List, [], ◌∷◌, ◌++◌, map}
pub use native.Mathlib.Omega.{arith}
