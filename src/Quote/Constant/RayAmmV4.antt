-- ===== src/Quote/Constant/RayAmmV4.antt =====
-- quote/rayammv4/swap_quote.go: Raydium AMM v4 over net reserves.
pub mod Keeps
use soldex.Base.{
  ℕ, zero, suc, ◌+◌, ◌-◌, ◌*◌, ◌/◌, ◌%◌, ◌^◌, ◌≤◌, ◌<◌, Bool, true, false, not, ◌&&◌, ◌||◌, Option,
  none, some, List, [], ◌∷◌, ◌++◌, ltb, leb, ◌==◌, if◌then◌else◌, Result, ok, err, ◌>>=◌, ◌>>◌,
  Error, math_overflow, divide_by_zero, negative_value, type_cast_failed, fail_if, zero_output,
  unsupported_curve, unknown_creator_fee_on, insufficient_liquidity, price_range_violation,
  compounding_pool,
}
use soldex.Base.Words.{u64_mod}

-- The input fee, rounded up.
unfoldable pub input_fee : (amount_in fee_numerator fee_denominator : ℕ) → ℕ
input_fee amount_in fee_numerator fee_denominator =
    (amount_in * fee_numerator + (fee_denominator - 1)) / fee_denominator

unfoldable pub swap_base_in :
    (reserve_in reserve_out amount_in fee_numerator fee_denominator : ℕ) → ℕ
unfolding input_fee
swap_base_in reserve_in reserve_out amount_in fee_numerator fee_denominator =
    let fee = input_fee amount_in fee_numerator fee_denominator in
    let net_in = amount_in - fee in
    if fee_denominator == 0
    then 0
    else if leb amount_in fee
    then 0
    else reserve_out * net_in / (reserve_in + net_in) % u64_mod
