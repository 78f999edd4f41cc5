-- ===== src/Base/Division.antt =====
-- Division by a variable: the bounds of a quotient, rounded down and rounded up.
use Prim.Native.Nat.{ℕ, ◌+◌, ◌-◌, ◌*◌, ◌/◌, ◌%◌, ◌≤◌, ◌<◌}
use mathlib.Core.Path.{◌≡◌, sym}
use native.Mathlib.Nat.{lt_of_mul-lt-mul_right}
use native.Mathlib.Omega.{arith}
use soldex.Base.Tests.{◌==◌, if◌then◌else◌}

-- The quotient rounded up, as the code computes it from quotient and remainder.
unfoldable pub ceil_div : ℕ → ℕ → ℕ
ceil_div n d = if (n % d) == 0 then n / d else n / d + 1

pub div_bounds : (n d : ℕ) → 0 < d → (n / d * d ≤ n) × (n < n / d * d + d)
div_bounds n d h = grind arith

pub ceil_div_bounds : (n d : ℕ) → 0 < d → (n ≤ ceil_div n d * d) × (ceil_div n d * d < n + d)
unfolding ceil_div
ceil_div_bounds n d h = grind arith

-- Multiples of `d` that lie less than `d` apart.
pub le_of_scaled : (a b d : ℕ) → a * d < b * d + d → a ≤ b
le_of_scaled a b d h = omega (arith, lt_of_mul-lt-mul_right d {m = a} {n = b + 1} (omega arith))

-- `q` is the quotient rounded up, if it is the least with `n ≤ q * d`.
pub ceil_div_unique : (n d q : ℕ) → n ≤ q * d → q * d < n + d → ceil_div n d ≡ q
ceil_div_unique n d q h k =
    let (low, high) = ceil_div_bounds n d (omega arith) in
    omega (
      arith,
      le_of_scaled (ceil_div n d) q d (omega arith),
      le_of_scaled q (ceil_div n d) d (omega arith),
    )

pub div_unique : (n d q : ℕ) → q * d ≤ n → n < q * d + d → n / d ≡ q
div_unique n d q h k =
    let (low, high) = div_bounds n d (omega arith) in
    omega (arith, le_of_scaled (n / d) q d (omega arith), le_of_scaled q (n / d) d (omega arith))

pub ceil_div-le : (n d q : ℕ) → 0 < d → n ≤ q * d → ceil_div n d ≤ q
ceil_div-le n d q h k = le_of_scaled _ _ d (omega (arith, (ceil_div_bounds n d h).1))

pub le-div : (n d q : ℕ) → 0 < d → q * d ≤ n → q ≤ n / d
le-div n d q h k = le_of_scaled _ _ d (omega (arith, (div_bounds n d h).1))

-- The rounded-up quotient in the other form that the code uses.
pub ceil_div-add_pred : (n d : ℕ) → 0 < d → (n + (d - 1)) / d ≡ ceil_div n d
ceil_div-add_pred n d h =
    let (low, high) = div_bounds (n + (d - 1)) d h in
    sym (ceil_div_unique n d ((n + (d - 1)) / d) (omega arith) (omega arith))

pub div-le-ceil_div : (n d : ℕ) → 0 < d → n / d ≤ ceil_div n d
div-le-ceil_div n d h =
    let (low, high) = div_bounds n d h in
    let (low', high') = ceil_div_bounds n d h in le_of_scaled _ _ d (omega arith)

pub ceil_div_mono : (m n d : ℕ) → 0 < d → m ≤ n → ceil_div m d ≤ ceil_div n d
ceil_div_mono m n d h k =
    ceil_div-le m d (ceil_div n d) h (omega (arith, (ceil_div_bounds n d h).0))
