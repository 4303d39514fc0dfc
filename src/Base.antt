-- ===== src/Base.antt =====
-- The names that all components share: the library's, passed on, and those of the children.
pub mod Tests
pub mod Positions
pub mod Lists
pub mod Int
pub mod Result
pub mod Map
pub use Tests.*
pub use Lists.*
pub use Positions.{At, At-here, At-skip, At-suc, At-get_elem?, At-end}
pub use Prim.Native.Nat.{ℕ, zero, suc, ◌+◌, ◌-◌, ◌*◌, ◌/◌, ◌%◌, ◌^◌, ◌≤◌, ◌<◌}
pub use mathlib.Core.Path.{◌≡◌, refl, sym, ap, ◌∙◌}
pub use mathlib.Core.Logic.{◌≢◌, ◌↔◌, ◌⊎◌, inl, inr}
pub use mathlib.Core.Bool.{Bool, true, false, not, ◌&&◌, ◌||◌}
pub use mathlib.Core.Option.{Option, none, some}
pub use mathlib.Core.List.{List, [], ◌∷◌, ◌++◌, map, append-nil, append_assoc}
pub use native.Mathlib.Omega.{arith}
