-- ===== src/Common.antt =====
-- The names that every other module shares: those of the libraries, passed on, and those of the
-- four children (tests on numbers, lists under native indices, signed integers, uint64).
mod Tests
mod Lists
mod Int
mod Word
pub use Tests.*
pub use Lists.*
pub use Int.*
unfoldable pub use Word.{add64, sub64}
pub use Word.{modulus, add64_exact, sub64_exact}
pub use Prim.Native.Nat.{ℕ, zero, suc, ◌+◌, ◌-◌, ◌*◌, ◌/◌, ◌%◌, ◌^◌, ◌≤◌, ◌<◌}
pub use mathlib.Core.Path.{◌≡◌, refl, sym, ap, ◌∙◌}
pub use mathlib.Core.Logic.{◌≢◌, ◌↔◌, ◌⊎◌, inl, inr}
pub use mathlib.Core.Bool.{Bool, true, false, not, ◌&&◌, ◌||◌}
pub use mathlib.Core.Option.{Option, none, some}
pub use mathlib.Core.List.{List, [], ◌∷◌, ◌++◌, map}
pub use native.Mathlib.Omega.{arith}
