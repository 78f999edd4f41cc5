-- ===== src/Quote/Damm/Concentrated.antt =====
-- quote/damm/concentrated_quote.go: a concentrated-liquidity pool in one price range.
use soldex.Base.{
  ℕ, ◌+◌, ◌*◌, ◌/◌, Bool, true, false, not, Option, none, some, ltb, ◌==◌, if◌then◌else◌, Result,
  ok, err, ◌>>=◌, ◌>>◌, math_overflow, fail_if, price_range_violation, compounding_pool,
}
use soldex.Math.Damm.Curve.{get_next_sqrt_price_from_input, get_delta_amount_a, get_delta_amount_b}
use soldex.Quote.Damm.Fees.{TradeDirection, a_to_b, b_to_a, get_fee_on_amount}

abbrev pub collect_fee_mode_only_b : ℕ
collect_fee_mode_only_b = 1

abbrev pub collect_fee_mode_compounding : ℕ
collect_fee_mode_compounding = 2

abbrev pub max_fee_numerator_v0 : ℕ
max_fee_numerator_v0 = 500_000_000

abbrev pub max_fee_numerator_v1 : ℕ
max_fee_numerator_v1 = 990_000_000

-- The volatility accumulator may be nil.
pub record ConcentratedPool : Type 0 where
  pub sqrt_price : ℕ
  pub sqrt_min_price : ℕ
  pub sqrt_max_price : ℕ
  pub liquidity : ℕ
  pub collect_fee_mode : ℕ
  pub fee_version : ℕ
  pub base_fee_numerator : ℕ
  pub dynamic_fee_initialized : Bool
  pub volatility_accumulator : Option ℕ
  pub bin_step : ℕ
  pub variable_fee_control : ℕ

abbrev pub scaled_fee : (accumulator bin_step control : ℕ) → ℕ
scaled_fee accumulator bin_step control =
    let vfa_bin = accumulator * bin_step in
    (vfa_bin * vfa_bin * control + 99_999_999_999) / 100_000_000_000

unfoldable pub variable_fee : ConcentratedPool → Result ℕ
variable_fee pool = elim (pool.volatility_accumulator) [
  | none ↦ err math_overflow
  | some accumulator ↦ ok (scaled_fee accumulator pool.bin_step pool.variable_fee_control)
]

abbrev pub max_fee_numerator : ℕ → ℕ
max_fee_numerator fee_version =
    if fee_version == 0 then max_fee_numerator_v0 else max_fee_numerator_v1

unfoldable pub total_trading_fee_numerator : ConcentratedPool → Result ℕ
total_trading_fee_numerator pool = do
  variable ← (if pool.dynamic_fee_initialized then variable_fee pool else ok 0)
  let total = pool.base_fee_numerator + variable
  let max = max_fee_numerator pool.fee_version
  ok (if ltb max total then max else total)

unfoldable pub fee_on_input : ℕ → TradeDirection → Bool
fee_on_input collect_fee_mode a_to_b = false
fee_on_input collect_fee_mode b_to_a = collect_fee_mode == collect_fee_mode_only_b

unfoldable pub concentrated_output : ℕ → TradeDirection → ConcentratedPool → Result ℕ
concentrated_output amount_in a_to_b pool = do
  next ← get_next_sqrt_price_from_input pool.sqrt_price pool.liquidity amount_in true
  fail_if (ltb next pool.sqrt_min_price) price_range_violation
  get_delta_amount_b next pool.sqrt_price pool.liquidity false
concentrated_output amount_in b_to_a pool = do
  next ← get_next_sqrt_price_from_input pool.sqrt_price pool.liquidity amount_in false
  fail_if (ltb pool.sqrt_max_price next) price_range_violation
  get_delta_amount_a pool.sqrt_price next pool.liquidity false

-- `GetFeeOnAmount` with no shares, where the fee is taken on this side.
unfoldable pub net_of_fee : Bool → ℕ → ℕ → Result ℕ
net_of_fee false amount fee_numerator = ok amount
net_of_fee true amount fee_numerator = do
  res ← get_fee_on_amount amount fee_numerator 0 0 0 false
  ok res.amount

unfoldable pub quote_concentrated_exact_in : ℕ → TradeDirection → ConcentratedPool → Result ℕ
quote_concentrated_exact_in amount_in dir pool = do
  fail_if (pool.collect_fee_mode == collect_fee_mode_compounding) compounding_pool
  fee_numerator ← total_trading_fee_numerator pool
  let fees_on_input = fee_on_input pool.collect_fee_mode dir
  actual_amount_in ← net_of_fee fees_on_input amount_in fee_numerator
  output ← concentrated_output actual_amount_in dir pool
  net_of_fee (not fees_on_input) output fee_numerator
