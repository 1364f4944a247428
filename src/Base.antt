-- ===== src/Base.antt =====
-- The names that the other modules share: the libraries', passed on, and those of its children.
-- Opaque texts of the program (uuids, job ids, resource paths, keys) are only ever compared for
-- equality, and its ISO-8601 timestamps only by the order that their texts share with time: both
-- are native numbers here.
mod Tests
mod Lists
mod Table
mod Results
mod Sort
mod Dict
mod Counting
pub use Tests.*
pub use Lists.*
pub use Table.*
pub use Results.*
pub use Sort.*
pub use Dict.*
pub use Counting.*
pub use Prim.Native.Nat.{ℕ, zero, suc, ◌+◌, ◌-◌, ◌*◌, ◌/◌, ◌%◌, ◌≤◌, ◌<◌}
pub use Prim.Native.String.{String}
pub use mathlib.Core.Path.{◌≡◌, refl, sym, ap, ◌∙◌, subst}
pub use mathlib.Core.Logic.{◌≢◌, ◌↔◌, ◌⊎◌, inl, inr}
pub use mathlib.Core.Bool.{Bool, true, false, not, ◌&&◌, ◌||◌}
pub use mathlib.Core.Option.{Option, none, some}
pub use mathlib.Core.List.{List, [], ◌∷◌, ◌++◌, map, Memᴰ}
pub use native.Mathlib.Omega.{arith}
