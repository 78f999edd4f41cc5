-- ===== src/Base/Words.antt =====
-- uint64 arithmetic as the hardware does it, and the bounds of the wider integers.
use Prim.Native.Nat.{ℕ, ◌+◌, ◌-◌, ◌*◌, ◌%◌, ◌^◌, ◌≤◌, ◌<◌}
use mathlib.Core.Path.{◌≡◌}
use native.Mathlib.Omega.{arith}

abbrev pub u64_mod : ℕ
u64_mod = 2 ^ 64

abbrev pub u32_mod : ℕ
u32_mod = 2 ^ 32

abbrev pub max_u64 : ℕ
max_u64 = 2 ^ 64 - 1

abbrev pub max_u128 : ℕ
max_u128 = 2 ^ 128 - 1

abbrev pub max_u256 : ℕ
max_u256 = 2 ^ 256 - 1

abbrev pub max_u512 : ℕ
max_u512 = 2 ^ 512 - 1

-- `a + b`, `a - b` and `a * b` on uint64, which wrap.
unfoldable pub add_wrap : ℕ → ℕ → ℕ
add_wrap a b = (a + b) % u64_mod

unfoldable pub sub_wrap : ℕ → ℕ → ℕ
sub_wrap a b = (a + u64_mod - b) % u64_mod

unfoldable pub mul_wrap : ℕ → ℕ → ℕ
mul_wrap a b = (a * b) % u64_mod

-- Where the exact value fits, it is the wrapped one.
pub add_wrap_exact : (a b : ℕ) → a + b < u64_mod → add_wrap a b ≡ a + b
unfolding add_wrap
add_wrap_exact a b h = omega arith

pub sub_wrap_exact : (a b : ℕ) → b ≤ a → a < u64_mod → sub_wrap a b ≡ a - b
unfolding sub_wrap
sub_wrap_exact a b h k = omega arith

pub mul_wrap_exact : (a b : ℕ) → a * b < u64_mod → mul_wrap a b ≡ a * b
unfolding mul_wrap
mul_wrap_exact a b h = omega arith
