-- ===== src/Base.antt =====
-- The names that the other modules share: the libraries', passed on, tests and lists over the
-- native numbers, octet strings, and actions that change a state and may raise.
mod Tests
mod Lists
mod Bytes
mod Actions
pub use Tests.*
pub use Lists.*
pub use Bytes.*
pub use Actions.*
unfoldable pub use Actions.{◌>>=◌, pure, raise, gets, modify}
unfoldable pub use Bytes.{ascii, be, unpack_from, all_below}
pub use Prim.Native.Nat.{ℕ, zero, suc, ◌+◌, ◌-◌, ◌*◌, ◌/◌, ◌%◌, ◌^◌, ◌≤◌, ◌<◌, min}
pub use Prim.Native.Nat.{bit_and, bit_or, bit_xor}
pub use mathlib.Core.Path.{◌≡◌, refl, sym, ap, subst, ◌∙◌}
pub use mathlib.Core.Logic.{◌≢◌, ◌↔◌, ◌⊎◌, inl, inr}
pub use mathlib.Core.Bool.{Bool, true, false, not, ◌&&◌, ◌||◌}
pub use mathlib.Core.Option.{Option, none, some}
pub use mathlib.Core.List.{List, [], ◌∷◌, ◌++◌, append-nil, append_assoc}
pub use native.Mathlib.Omega.{arith}
