-- ===== src/Tests/Primitives.antt =====
-- math/dlmm at concrete inputs.
use soldex.Base.{◌≡◌, refl, ok, err, divide_by_zero}
use soldex.Math.Common.{nat}
use soldex.Math.Dlmm.MulDiv.{mul_div, rounding_up, rounding_down}

-- TestMulDivRounding, TestMulDivDivideByZero
mul_div_runs :
    (mul_div (nat 5) (nat 5) (nat 3) rounding_down ≡ ok 8)
    × (mul_div (nat 5) (nat 5) (nat 3) rounding_up ≡ ok 9)
    × (mul_div (nat 1) (nat 2) (nat 0) rounding_down ≡ err divide_by_zero)
unfolding mul_div
mul_div_runs = (refl, refl, refl)
