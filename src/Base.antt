-- ===== src/Base.antt =====
-- What the components share: the library's names passed on, Boolean tests and the conditional,
-- signed integers, machine words, arrays as functions, and the counted loops over them.
mod Tests
mod Int
mod Word
mod Array
mod Loop
mod ReturnValue
mod Scan
pub use Tests.*
pub use Int.*
pub use Word.*
pub use Array.*
pub use ReturnValue.*
unfoldable pub use Loop.*
unfoldable pub use Scan.*
pub use Prim.Native.Nat.{ℕ, zero, suc, ◌+◌, ◌-◌, ◌*◌, ◌/◌, ◌%◌, ◌^◌, ◌≤◌, ◌<◌}
pub use mathlib.Core.Path.{◌≡◌, refl, sym, ap, ◌∙◌, fun_ext}
pub use mathlib.Core.Logic.{◌≢◌, ◌↔◌, ◌⊎◌, inl, inr}
pub use mathlib.Core.Bool.{Bool, true, false, ◌&&◌, ◌||◌, not}
pub use mathlib.Core.Option.{Option, none, some}
pub use native.Mathlib.Omega.{arith}
