-- ===== src/Quote/Constant/RayCpmm.antt =====
-- quote/raycpmm/swap_quote.go: Raydium CP-Swap over net reserves.
pub mod Keeps
pub mod Settles
use soldex.Base.{
  ℕ, zero, suc, ◌+◌, ◌-◌, ◌*◌, ◌/◌, ◌%◌, ◌^◌, ◌≤◌, ◌<◌, Bool, true, false, not, ◌&&◌, ◌||◌, Option,
  none, some, List, [], ◌∷◌, ◌++◌, ltb, leb, ◌==◌, if◌then◌else◌, Result, ok, err, ◌>>=◌, ◌>>◌,
  Error, math_overflow, divide_by_zero, negative_value, type_cast_failed, fail_if, zero_output,
  unsupported_curve, unknown_creator_fee_on, insufficient_liquidity, price_range_violation,
  compounding_pool,
}
use soldex.Base.Words.{u64_mod, add_wrap}

abbrev pub fee_rate_denominator : ℕ
fee_rate_denominator = 1_000_000

unfoldable pub creator_fee_on_input : ℕ → Bool → Result Bool
creator_fee_on_input creator_fee_on zero_for_one =
    if creator_fee_on == 0
    then ok true
    else if creator_fee_on == 1
    then ok zero_for_one
    else if creator_fee_on == 2
    then ok (not zero_for_one)
    else err (unknown_creator_fee_on creator_fee_on)

unfoldable pub ceil_fee : ℕ → ℕ → ℕ
ceil_fee amount rate = (amount * rate + (fee_rate_denominator - 1)) / fee_rate_denominator

-- The rate taken off the input.
unfoldable pub input_fee_rate : ℕ → ℕ → Bool → ℕ
unfolding add_wrap
input_fee_rate trade_fee_rate creator_fee_rate on_input =
    if on_input then add_wrap trade_fee_rate creator_fee_rate else trade_fee_rate

-- The curve over the net input, rounded down.
unfoldable pub curve_out : (reserve_in reserve_out net_in : ℕ) → ℕ
curve_out reserve_in reserve_out net_in = reserve_out * net_in / (reserve_in + net_in)

unfoldable pub swap_base_input :
    (reserve_in reserve_out amount_in trade_fee_rate creator_fee_rate : ℕ) → Bool → ℕ
swap_base_input reserve_in reserve_out amount_in trade_fee_rate creator_fee_rate on_input =
    let fee = ceil_fee amount_in (input_fee_rate trade_fee_rate creator_fee_rate on_input) in
    let swapped = curve_out reserve_in reserve_out (amount_in - fee) in
    let creator_fee = ceil_fee swapped creator_fee_rate in
    if leb amount_in fee
    then 0
    else if reserve_in + (amount_in - fee) == 0
    then 0
    else if on_input
    then swapped % u64_mod
    else if leb swapped creator_fee
    then 0
    else (swapped - creator_fee) % u64_mod
