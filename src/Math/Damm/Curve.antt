-- ===== src/Math/Damm/Curve.antt =====
-- math/damm/curve_math.go: the concentrated-liquidity curve of cp-amm.
-- Sqrt prices and liquidity are the pool's u128 fields, so they are natural numbers here; the
-- difference of two prices is an integer.
use soldex.Base.{
  ℕ, ◌+◌, ◌-◌, ◌*◌, ◌/◌, ◌^◌, Bool, ◌||◌, some, ltb, ◌==◌, if◌then◌else◌, Result, ok, err, ◌>>=◌,
  math_overflow, divide_by_zero,
}
use soldex.Base.Int.{sub_ℕ}
use soldex.Math.Common.{nat, div_floor, div_ceil, big_to_uint64_checked}

unfoldable pub get_next_sqrt_price_from_input : ℕ → ℕ → ℕ → Bool → Result ℕ
get_next_sqrt_price_from_input sqrt_price liquidity amount_in a_for_b =
    if (sqrt_price == 0) || (liquidity == 0)
    then err divide_by_zero
    else if amount_in == 0
    then ok sqrt_price
    else if a_for_b
    then div_ceil (nat (liquidity * sqrt_price)) (nat (liquidity + amount_in * sqrt_price))
    else (do
      quotient ← div_floor (nat (amount_in * 2 ^ 128)) (nat liquidity)
      ok (sqrt_price + quotient))

unfoldable pub get_delta_amount_a : ℕ → ℕ → ℕ → Bool → Result ℕ
get_delta_amount_a lower upper liquidity round_up =
    if (lower == 0) || (upper == 0) then err divide_by_zero else (do
      let numerator = sub_ℕ (liquidity * upper) (liquidity * lower)
      let denominator = lower * upper
      result ←
          (if round_up
            then div_ceil (some numerator) (nat denominator)
            else div_floor (some numerator) (nat denominator))
      big_to_uint64_checked (nat result))

unfoldable pub get_delta_amount_b : ℕ → ℕ → ℕ → Bool → Result ℕ
get_delta_amount_b lower upper liquidity round_up =
    if ltb upper lower then err math_overflow else (do
      let prod = liquidity * (upper - lower)
      result ← (if round_up then div_ceil (nat prod) (nat (2 ^ 128)) else ok (prod / 2 ^ 128))
      big_to_uint64_checked (nat result))
