-- ===== src/Quote/Constant/FluxBeam.antt =====
-- quote/fluxbeam/swap_quote.go: FluxBeam, an SPL token-swap fork; both fees come off the input.
pub mod Keeps
use soldex.Base.{
  ℕ, zero, suc, ◌+◌, ◌-◌, ◌*◌, ◌/◌, ◌%◌, ◌^◌, ◌≤◌, ◌<◌, Bool, true, false, not, ◌&&◌, ◌||◌, Option,
  none, some, List, [], ◌∷◌, ◌++◌, ltb, leb, ◌==◌, if◌then◌else◌, Result, ok, err, ◌>>=◌, ◌>>◌,
  Error, math_overflow, divide_by_zero, negative_value, type_cast_failed, fail_if, zero_output,
  unsupported_curve, unknown_creator_fee_on, insufficient_liquidity, price_range_violation,
  compounding_pool,
}
use soldex.Base.Words.{u64_mod}

-- models/fluxbeam.go: four fee pairs, of which a swap pays the first two.
pub record FluxBeamFees : Type 0 where
  pub trade_fee_numerator : ℕ
  pub trade_fee_denominator : ℕ
  pub owner_trade_fee_numerator : ℕ
  pub owner_trade_fee_denominator : ℕ
  pub owner_withdraw_fee_numerator : ℕ
  pub owner_withdraw_fee_denominator : ℕ
  pub host_fee_numerator : ℕ
  pub host_fee_denominator : ℕ

abbrev pub curve_constant_product : ℕ
curve_constant_product = 0

unfoldable pub calculate_fee : (amount numerator denominator : ℕ) → ℕ
calculate_fee amount numerator denominator =
    let fee = amount * numerator / denominator in
    if (numerator == 0) || (amount == 0) || (denominator == 0)
    then 0
    else if fee == 0
    then 1
    else fee

unfoldable pub swap_exact_in : (reserve_in reserve_out amount_in : ℕ) → FluxBeamFees → Result ℕ
swap_exact_in reserve_in reserve_out amount_in fees =
    let trade_fee = calculate_fee amount_in fees.trade_fee_numerator fees.trade_fee_denominator in
    let owner_fee =
      calculate_fee amount_in fees.owner_trade_fee_numerator fees.owner_trade_fee_denominator in
    let total = trade_fee + owner_fee in
    let net = amount_in - total in
    let den = reserve_in + net in
    let out = reserve_out * net / den in
    if leb amount_in total
    then err zero_output
    else if den == 0
    then err zero_output
    else if out == 0
    then err zero_output
    else if leb u64_mod out
    then err zero_output
    else ok out

unfoldable pub quote_exact_in :
    (curve_type reserve_in reserve_out amount_in : ℕ) → FluxBeamFees → Result ℕ
quote_exact_in curve_type reserve_in reserve_out amount_in fees =
    if curve_type == curve_constant_product
    then swap_exact_in reserve_in reserve_out amount_in fees
    else err (unsupported_curve curve_type)
