-- ===== src/Base/Words.antt =====
-- Machine words: `size_t` and `uint64_t` are 64 bits wide, `uint32_t` 32.
use Prim.Native.Nat.{ℕ, ◌+◌, ◌-◌, ◌%◌, ◌^◌, ◌≤◌, ◌<◌, min}
use mathlib.Core.Path.{◌≡◌}
use mathlib.Core.Bool.{Bool}
use native.Mathlib.Omega.{arith}
use xgc2_adapter_runtime_cli.Base.Tests.{ltb, if◌then◌else◌}

abbrev pub u32_mod : ℕ
u32_mod = 2 ^ 32

abbrev pub u64_mod : ℕ
u64_mod = 2 ^ 64

abbrev pub u64_max : ℕ
u64_max = 2 ^ 64 - 1

unfoldable pub add64 : ℕ → ℕ → ℕ
add64 a b = (a + b) % u64_mod

unfoldable pub sub64 : ℕ → ℕ → ℕ
sub64 a b = (a + u64_mod - b) % u64_mod

pub add64_exact : (a b : ℕ) → a + b < u64_mod → add64 a b ≡ a + b
unfolding add64
add64_exact a b h = omega arith

pub sub64_exact : (a b : ℕ) → b ≤ a → a < u64_mod → sub64 a b ≡ a - b
unfolding sub64
sub64_exact a b h k = omega arith

pub add64_bound : (a b : ℕ) → add64 a b < u64_mod
unfolding add64
add64_bound a b = omega arith

-- SaturatingAdd of src/internal.hpp.
unfoldable pub saturating_add : ℕ → ℕ → ℕ
saturating_add left right = if ltb (u64_max - left) right then u64_max else left + right

-- AddOverflows of src/stream.cpp.
unfoldable pub add_overflows : ℕ → ℕ → Bool
add_overflows left right = ltb (u64_max - left) right

pub saturating_add_lem : (a b : ℕ) → a ≤ u64_max → saturating_add a b ≡ min u64_max (a + b)
unfolding saturating_add
saturating_add_lem a b h = ground arith
