-- ===== src/Quote/Damm/Fees.antt =====
-- quote/damm/types.go and fees.go: the trading fee and its split.
pub mod Split
use soldex.Base.{ℕ, Bool, ◌==◌, if◌then◌else◌, Result, ok, ◌>>=◌}
use soldex.Base.Words.{sub_wrap}
use soldex.Math.Damm.MulDiv.{rounding_up, rounding_down}
use soldex.Math.Damm.Cast.{safe_mul_div_cast_u64}

pub data TradeDirection : Type 0 where
  a_to_b b_to_a : TradeDirection

pub record SplitFees : Type 0 where
  pub claiming_fee : ℕ
  pub compounding_fee : ℕ
  pub protocol_fee : ℕ
  pub referral_fee : ℕ

-- `FeeOnAmountResult` repeats the four fields of `SplitFees`.
pub record FeeOnAmountResult : Type 0 where
  pub amount : ℕ
  pub split : SplitFees

pub record SwapResult : Type 0 where
  pub included_fee_input_amount : ℕ
  pub excluded_fee_input_amount : ℕ
  pub output_amount : ℕ
  pub amount_left : ℕ
  pub split_fees : SplitFees

abbrev pub fee_denominator : ℕ
fee_denominator = 1_000_000_000

abbrev pub max_basis_point : ℕ
max_basis_point = 10_000

-- The amount without the fee, and the fee.
unfoldable pub get_excluded_fee_amount : ℕ → ℕ → Result (ℕ × ℕ)
get_excluded_fee_amount trade_fee_numerator included_fee_amount = do
  trading_fee ←
      safe_mul_div_cast_u64 64 included_fee_amount trade_fee_numerator fee_denominator rounding_up
  ok (sub_wrap included_fee_amount trading_fee, trading_fee)

-- The amount with the fee, and the fee.
unfoldable pub get_included_fee_amount : ℕ → ℕ → Result (ℕ × ℕ)
get_included_fee_amount trade_fee_numerator excluded_fee_amount = do
  let den = sub_wrap fee_denominator trade_fee_numerator
  included ← safe_mul_div_cast_u64 64 excluded_fee_amount fee_denominator den rounding_up
  ok (included, sub_wrap included excluded_fee_amount)

-- `if compoundingFeeBps > 0`
unfoldable pub compounding_share : ℕ → ℕ → Result ℕ
compounding_share trading_fee compounding_fee_bps =
    if compounding_fee_bps == 0
    then ok 0
    else safe_mul_div_cast_u64 64 trading_fee compounding_fee_bps max_basis_point rounding_down

-- `if hasReferral`
unfoldable pub referral_share : ℕ → ℕ → Bool → Result ℕ
referral_share protocol_fee referral_fee_percent has_referral =
    if has_referral
    then safe_mul_div_cast_u64 64 protocol_fee referral_fee_percent 100 rounding_down
    else ok 0

unfoldable pub split_trading_fees :
    (fee_amount protocol_fee_percent compounding_fee_bps referral_fee_percent : ℕ)
    → Bool
    → Result SplitFees
split_trading_fees fee_amount protocol_fee_percent compounding_fee_bps referral_fee_percent
      has_referral =
    do
      protocol_fee ← safe_mul_div_cast_u64 64 fee_amount protocol_fee_percent 100 rounding_down
      let trading_fee = sub_wrap fee_amount protocol_fee
      compounding_fee ← compounding_share trading_fee compounding_fee_bps
      referral_fee ← referral_share protocol_fee referral_fee_percent has_referral
      ok (record {
        claiming_fee = sub_wrap trading_fee compounding_fee;
        compounding_fee = compounding_fee;
        protocol_fee = sub_wrap protocol_fee referral_fee;
        referral_fee = referral_fee;
      })

unfoldable pub get_fee_on_amount :
    (amount trade_fee_numerator protocol_fee_percent compounding_fee_bps referral_fee_percent : ℕ)
    → Bool
    → Result FeeOnAmountResult
get_fee_on_amount amount trade_fee_numerator protocol_fee_percent compounding_fee_bps
      referral_fee_percent has_referral =
    do
      (excluded, trading_fee) ← get_excluded_fee_amount trade_fee_numerator amount
      split ←
          split_trading_fees trading_fee protocol_fee_percent compounding_fee_bps
            referral_fee_percent has_referral
      ok (record { amount = excluded; split = split })
