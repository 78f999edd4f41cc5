-- ===== src/Quote/Damm/Compounding.antt =====
-- quote/damm/compounding_quote.go: a constant-product pool that folds its fees back.
pub mod CurveSteps
pub mod RoundTrip
pub mod Keeps
use soldex.Base.{
  ℕ, Bool, true, false, not, leb, if◌then◌else◌, Result, ok, err, ◌>>=◌, insufficient_liquidity,
}
use soldex.Base.Words.{add_wrap, sub_wrap}
use soldex.Math.Damm.MulDiv.{rounding_up, rounding_down}
use soldex.Math.Damm.Cast.{safe_mul_div_cast_u64}
use soldex.Quote.Damm.Fees.{
  TradeDirection, a_to_b, b_to_a, SplitFees, FeeOnAmountResult, SwapResult, get_included_fee_amount,
  split_trading_fees, get_fee_on_amount,
}

-- The last four parameters of both quotes.
pub record FeeSetup : Type 0 where
  pub has_referral : Bool
  pub protocol_fee_percent : ℕ
  pub compounding_fee_bps : ℕ
  pub referral_fee_percent : ℕ

unfoldable pub a_to_b_from_amount_in : (token_a token_b amount_in : ℕ) → Result ℕ
a_to_b_from_amount_in token_a token_b amount_in =
    safe_mul_div_cast_u64 64 token_b amount_in (add_wrap token_a amount_in) rounding_down

unfoldable pub b_to_a_from_amount_in : (token_a token_b amount_in : ℕ) → Result ℕ
b_to_a_from_amount_in token_a token_b amount_in =
    safe_mul_div_cast_u64 64 token_a amount_in (add_wrap token_b amount_in) rounding_down

unfoldable pub a_to_b_from_amount_out : (token_a token_b amount_out : ℕ) → Result ℕ
a_to_b_from_amount_out token_a token_b amount_out =
    safe_mul_div_cast_u64 64 token_a amount_out (sub_wrap token_b amount_out) rounding_up

unfoldable pub b_to_a_from_amount_out : (token_a token_b amount_out : ℕ) → Result ℕ
b_to_a_from_amount_out token_a token_b amount_out =
    safe_mul_div_cast_u64 64 token_b amount_out (sub_wrap token_a amount_out) rounding_up

abbrev pub no_fees : SplitFees
no_fees = record { claiming_fee = 0; compounding_fee = 0; protocol_fee = 0; referral_fee = 0 }

-- `GetFeeOnAmount` where the fee is taken on this side, nothing where it is taken on the other.
unfoldable pub fee_if : Bool → ℕ → ℕ → FeeSetup → Result FeeOnAmountResult
fee_if false amount trade_fee_numerator setup = ok (record { amount = amount; split = no_fees })
fee_if true amount trade_fee_numerator setup =
    get_fee_on_amount amount trade_fee_numerator setup.protocol_fee_percent
      setup.compounding_fee_bps setup.referral_fee_percent setup.has_referral

-- `if tradeDirection == TradeDirectionAtoB`
unfoldable pub curve_output : TradeDirection → (token_a token_b amount_in : ℕ) → Result ℕ
curve_output a_to_b token_a token_b amount_in = a_to_b_from_amount_in token_a token_b amount_in
curve_output b_to_a token_a token_b amount_in = b_to_a_from_amount_in token_a token_b amount_in

unfoldable pub quote_exact_in_compounding :
    (amount_in token_a token_b : ℕ) → TradeDirection → ℕ → Bool → FeeSetup → Result SwapResult
quote_exact_in_compounding amount_in token_a token_b direction trade_fee_numerator fee_on_input
      setup =
    do
      on_input ← fee_if fee_on_input amount_in trade_fee_numerator setup
      output ← curve_output direction token_a token_b on_input.amount
      on_output ← fee_if (not fee_on_input) output trade_fee_numerator setup
      ok (record {
        included_fee_input_amount = amount_in;
        excluded_fee_input_amount = on_input.amount;
        output_amount = on_output.amount;
        amount_left = 0;
        split_fees = if fee_on_input then on_input.split else on_output.split;
      })

unfoldable pub input_for_output : (token_a token_b amount_out : ℕ) → TradeDirection → Result ℕ
input_for_output token_a token_b amount_out a_to_b =
    if leb token_b amount_out
    then err insufficient_liquidity
    else a_to_b_from_amount_out token_a token_b amount_out
input_for_output token_a token_b amount_out b_to_a =
    if leb token_a amount_out
    then err insufficient_liquidity
    else b_to_a_from_amount_out token_a token_b amount_out

-- The input with the fee, the input without it, and the trading fee.
unfoldable pub exact_out_input :
    (amount_out token_a token_b : ℕ) → TradeDirection → ℕ → Bool → Result (ℕ × ℕ × ℕ)
exact_out_input amount_out token_a token_b direction trade_fee_numerator fee_on_input =
    if fee_on_input
    then (do
      net ← input_for_output token_a token_b amount_out direction
      (included, fee) ← get_included_fee_amount trade_fee_numerator net
      ok (included, net, fee))
    else (do
      (gross_out, fee) ← get_included_fee_amount trade_fee_numerator amount_out
      input ← input_for_output token_a token_b gross_out direction
      ok (input, input, fee))

unfoldable pub quote_exact_out_compounding :
    (amount_out token_a token_b : ℕ) → TradeDirection → ℕ → Bool → FeeSetup → Result SwapResult
quote_exact_out_compounding amount_out token_a token_b direction trade_fee_numerator fee_on_input
      setup =
    do
      (included, excluded, trading_fee) ←
          exact_out_input amount_out token_a token_b direction trade_fee_numerator fee_on_input
      split ←
          split_trading_fees trading_fee setup.protocol_fee_percent setup.compounding_fee_bps
            setup.referral_fee_percent setup.has_referral
      ok (record {
        included_fee_input_amount = included;
        excluded_fee_input_amount = excluded;
        output_amount = amount_out;
        amount_left = 0;
        split_fees = split;
      })
