-- ===== src/Base/Word.antt =====
-- Machine words: `uint32_t`, and `uint64_t`, which is also `size_t`. Arithmetic wraps.
use Prim.Native.Nat.{ℕ, ◌+◌, ◌-◌, ◌%◌}

-- 2 ^ 32 and 2 ^ 64.
abbrev pub u32_mod : ℕ
u32_mod = 0x1_0000_0000

abbrev pub u64_mod : ℕ
u64_mod = 0x1_0000_0000_0000_0000

-- `UINT32_MAX`, and `UINT64_MAX`, which is also `SIZE_MAX`.
abbrev pub u32_max : ℕ
u32_max = 0xffff_ffff

abbrev pub u64_max : ℕ
u64_max = 0xffff_ffff_ffff_ffff

-- The cast `(uint32_t)x`.
abbrev pub to_u32 : ℕ → ℕ
to_u32 x = x % u32_mod

-- `x++` and `x--` on a `uint64_t`, and `x - y`.
abbrev pub inc64 : ℕ → ℕ
inc64 x = (x + 1) % u64_mod

abbrev pub dec64 : ℕ → ℕ
dec64 x = (x + u64_max) % u64_mod

abbrev pub sub64 : ℕ → ℕ → ℕ
sub64 x y = (x + u64_mod - y) % u64_mod
