-- ===== src/Prelude/Words.antt =====
-- `uint64_t` and `uint32_t` values as numbers; arithmetic wraps.
use Prim.Native.Nat.{ℕ, ◌+◌, ◌-◌, ◌*◌, ◌%◌, ◌^◌, ◌/◌, ◌<◌, ◌≤◌}
use mathlib.Core.Path.{◌≡◌}
use mathlib.Core.Logic.{◌≢◌}
use native.Mathlib.Omega.{arith}
use native.Mathlib.Nat.{div-mul-le_self}

abbrev pub u64_mod : ℕ
u64_mod = 2 ^ 64

-- UINT64_MAX, which is also SIZE_MAX: the sources' 64-bit targets.
abbrev pub u64_max : ℕ
u64_max = 2 ^ 64 - 1

abbrev pub u32_mod : ℕ
u32_mod = 2 ^ 32

abbrev pub u32_max : ℕ
u32_max = 2 ^ 32 - 1

abbrev pub IsU64 : ℕ → Type 0
IsU64 n = n < u64_mod

abbrev pub IsU32 : ℕ → Type 0
IsU32 n = n < u32_mod

abbrev pub add64 : ℕ → ℕ → ℕ
add64 a b = (a + b) % u64_mod

abbrev pub sub64 : ℕ → ℕ → ℕ
sub64 a b = (a + u64_mod - b) % u64_mod

abbrev pub mul64 : ℕ → ℕ → ℕ
mul64 a b = a * b % u64_mod

abbrev pub add32 : ℕ → ℕ → ℕ
add32 a b = (a + b) % u32_mod

abbrev pub mul32 : ℕ → ℕ → ℕ
mul32 a b = a * b % u32_mod

-- The test before a product that could wrap is enough for it.
pub no_overflow : (e x : ℕ) → x ≢ 0 → e ≤ u64_max / x → e * x ≤ u64_max
no_overflow e x h le = grind (arith, div-mul-le_self u64_max x)

pub mul64-fits : (e x : ℕ) → e * x ≤ u64_max → mul64 e x ≡ e * x
mul64-fits e x le = omega (arith, le)
