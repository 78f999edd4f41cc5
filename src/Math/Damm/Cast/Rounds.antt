-- ===== src/Math/Damm/Cast/Rounds.antt =====
-- math/damm/utils_math.go: what a successful `SafeMulDivCastU64` returned.
use soldex.Base.{
  ℕ, ◌*◌, ◌/◌, ◌<◌, ◌≡◌, refl, ap, ◌∙◌, arith, Bool, true, false, ◌==◌, Result, ok, ◌>>◌, Error,
  divide_by_zero, fail_if, >>=-eq-ok,
}
use soldex.Base.Words.{u64_mod, max_u128}
use soldex.Base.Division.{ceil_div}
use soldex.Math.Common.{nat, mul_checked}
use soldex.Math.Common.Success.{mul_checked-nat, div_floor-ok, div_ceil-ok}
use soldex.Math.Damm.MulDiv.{Rounding, rounding_up, rounding_down, div_rounded}
use soldex.Math.Damm.Cast.{cast_to_unsigned, safe_mul_div_cast_u64}

abbrev pub rounded : Rounding → ℕ → ℕ → ℕ
rounded rounding_up n d = ceil_div n d
rounded rounding_down n d = n / d

div_rounded-ok :
    (r : Rounding) (n d : ℕ) {v : ℕ}
    → div_rounded r (nat n) (nat d) ≡ ok v
    → (0 < d) × (v ≡ rounded r n d)
unfolding div_rounded
div_rounded-ok rounding_up n d h = div_ceil-ok n d h
div_rounded-ok rounding_down n d h = div_floor-ok n d h

cast_to_unsigned-ok : (n : ℕ) {v : ℕ} → cast_to_unsigned 64 (nat n) ≡ ok v → (v ≡ n) × (v < u64_mod)
unfolding cast_to_unsigned
cast_to_unsigned-ok n h = ground arith

fail_if-ok :
    (t : Bool) (e : Error) (r : Result ℕ) {v : ℕ}
    → (fail_if t e >> r) ≡ ok v
    → (t ≡ false) × (r ≡ ok v)
fail_if-ok true e r h = cc
fail_if-ok false e r h = (refl, h)

-- The result is the rounded quotient of the exact product, and a uint64.
pub safe_mul_div_cast_u64-ok :
    (x y d : ℕ) (r : Rounding) {v : ℕ}
    → safe_mul_div_cast_u64 64 x y d r ≡ ok v
    → (0 < d) × (v ≡ rounded r (x * y) d) × (v < u64_mod)
unfolding safe_mul_div_cast_u64
safe_mul_div_cast_u64-ok x y d r {v} h =
    let (t, h₀) = fail_if-ok (d == 0) divide_by_zero _ h in
    let (prod, e₁, h₁) = >>=-eq-ok (mul_checked (nat x) (nat y) max_u128) _ h₀ in
    let (out, e₂, h₂) = >>=-eq-ok (div_rounded r (nat prod) (nat d)) _ h₁ in
    let (_, _, exact, _) = mul_checked-nat x y max_u128 prod e₁ in
    let (positive, q) = div_rounded-ok r prod d e₂ in
    let (same, fits) = cast_to_unsigned-ok out h₂ in
    (positive, same ∙ q ∙ ap (λ n. rounded r n d) exact, fits)
