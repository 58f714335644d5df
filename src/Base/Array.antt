-- ===== src/Base/Array.antt =====
-- Arrays as functions from indices. The number of cells is kept by the object that owns the array,
-- as it is in C; the cells past it are never read by guarded code.
use Prim.Native.Nat.{ℕ, ◌+◌, ◌-◌}
use mathlib.Core.Bool.{◌&&◌}
use simulador_memoria_virtua.Base.Tests.{ltb, leb, ◌==◌, if◌then◌else◌}

module _ {ℓ} {A : Type ℓ} where
  -- What `calloc` gives: every cell is zero.
  abbrev pub filled : A → ℕ → A
  filled a i = a

  -- `array[i] = v`
  abbrev pub update : (ℕ → A) → ℕ → A → ℕ → A
  update f i v j = if i == j then v else f j

  -- `memset(array + start, v, n)`
  abbrev pub fill : (ℕ → A) → ℕ → ℕ → A → ℕ → A
  fill f start n v j = if leb start j && ltb j (start + n) then v else f j

  -- `memcpy(array + start, source, n)`
  abbrev pub copy : (ℕ → A) → ℕ → ℕ → (ℕ → A) → ℕ → A
  copy f start n source j = if leb start j && ltb j (start + n) then source (j - start) else f j
