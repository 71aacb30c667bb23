-- ===== src/Prelude.antt =====
-- The names that the other modules share: the libraries', passed on, and those of the children.
mod Tests
mod Texts
mod Lists
mod Tables
mod Order
mod Dicts
mod Numbering
mod Membership
mod Maxima
unfoldable pub use Tests.*
unfoldable pub use Texts.*
unfoldable pub use Lists.*
unfoldable pub use Tables.*
unfoldable pub use Order.*
unfoldable pub use Dicts.*
unfoldable pub use Numbering.*
unfoldable pub use Membership.*
unfoldable pub use Maxima.*
pub use Prim.Native.Nat.{ℕ, zero, suc, ◌+◌, ◌-◌, ◌*◌, ◌/◌, ◌%◌, ◌^◌, ◌≤◌, ◌<◌, max}
pub use Prim.Native.String.{String}
pub use mathlib.Core.Path.{◌≡◌, refl, sym, ap, ◌∙◌, subst, fun_ext}
pub use mathlib.Core.Logic.{◌≢◌, ◌↔◌, ◌⊎◌, inl, inr}
pub use mathlib.Core.Bool.{Bool, true, false, ◌&&◌, ◌||◌, not}
pub use mathlib.Core.Option.{Option, none, some, some-injective}
pub use mathlib.Core.List.{List, [], ◌∷◌, ◌++◌, map, append-nil, append_assoc, map-append, Memᴰ}
pub use native.Mathlib.Omega.{arith}
