-- ===== src/Base.antt =====
-- The names that the modules share: the libraries', passed on, and those of the children, with
-- Go's strings and byte slices as lists of bytes (Base/Strings), the results of calls that can fail
-- and the state-passing actions (Base/Actions), and Go's 64-bit integers (Base/Int).
mod Tests
mod Strings
mod Int
mod Actions
pub use Prim.Native.Nat.{ℕ, zero, suc, ◌+◌, ◌-◌, ◌*◌, ◌/◌, ◌%◌, ◌^◌, ◌≤◌, ◌<◌}
pub use mathlib.Core.Path.{◌≡◌, refl, sym, ap, ◌∙◌, subst, fun_ext}
pub use mathlib.Core.Logic.{◌≢◌, ◌↔◌, ◌⊎◌, inl, inr}
pub use mathlib.Core.Bool.{Bool, true, false, not, ◌&&◌, ◌||◌}
pub use mathlib.Core.Option.{Option, none, some}
pub use mathlib.Core.List.{List, [], ◌∷◌, ◌++◌, map}
pub use native.Mathlib.Omega.{arith}
pub use Tests.*
unfoldable pub use Strings.*
unfoldable pub use Int.*
pub use Actions.*
