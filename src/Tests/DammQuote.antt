-- ===== src/Tests/DammQuote.antt =====
-- math/damm and quote/damm at concrete inputs.
use soldex.Base.{ℕ, ◌^◌, ◌≤◌, ◌≡◌, refl, arith, true, some, ok}
use soldex.Base.Words.{sub_wrap, add_wrap}
use soldex.Math.Common.{nat, mul_checked, div_floor, div_ceil}
use soldex.Math.Damm.MulDiv.{div_rounded}
use soldex.Math.Damm.Cast.{safe_mul_div_cast_u64, cast_to_unsigned}
use soldex.Math.Damm.Sqrt.{sqrt_u256}
use soldex.Math.Damm.Sqrt.Root.{IsRootBelow, sqrt_u256-IsRootBelow}
use soldex.Quote.Damm.Fees.{
  a_to_b, SplitFees, FeeOnAmountResult, SwapResult, split_trading_fees, get_fee_on_amount,
  get_excluded_fee_amount, get_included_fee_amount, compounding_share, referral_share,
}
use soldex.Quote.Damm.Fees.Split.{TakesFee, get_fee_on_amount-TakesFee}
use soldex.Quote.Damm.Compounding.{
  FeeSetup, quote_exact_in_compounding, quote_exact_out_compounding, fee_if, curve_output,
  exact_out_input, input_for_output, a_to_b_from_amount_in, a_to_b_from_amount_out,
}
use soldex.Quote.Damm.Compounding.RoundTrip.{quote_exact_in-quote_exact_out}
use soldex.Quote.Damm.Compounding.Keeps.{KeepsReserves, quote_exact_in_compounding-KeepsReserves}

-- The first radicand whose root is not found.
sqrt_u256-IsRootBelow_example :
    (s : ℕ) × (sqrt_u256 (nat (2 ^ 128)) ≡ some (ok s)) × IsRootBelow (2 ^ 128) s
sqrt_u256-IsRootBelow_example = sqrt_u256-IsRootBelow (2 ^ 128) (omega arith)

-- A fee of 1000: 20% for the protocol, of it 20% for the referral, and half of the rest compounds.
abbrev thousand_split : SplitFees
thousand_split = record {
  claiming_fee = 400;
  compounding_fee = 400;
  protocol_fee = 160;
  referral_fee = 40;
}

split_runs : split_trading_fees 1000 20 5000 20 true ≡ ok thousand_split
unfolding split_trading_fees safe_mul_div_cast_u64 mul_checked div_rounded div_floor
    cast_to_unsigned sub_wrap compounding_share referral_share
split_runs = refl

abbrev million_less : FeeOnAmountResult
million_less = record { amount = 999_000; split = thousand_split }

fee_runs : get_fee_on_amount 1_000_000 1_000_000 20 5000 20 true ≡ ok million_less
unfolding get_fee_on_amount get_excluded_fee_amount split_trading_fees safe_mul_div_cast_u64
    mul_checked div_rounded div_floor div_ceil cast_to_unsigned sub_wrap compounding_share
    referral_share
fee_runs = refl

get_fee_on_amount-TakesFee_example : TakesFee 1_000_000 1_000_000 20 million_less
get_fee_on_amount-TakesFee_example =
    get_fee_on_amount-TakesFee 1_000_000 1_000_000 20 5000 20 true (omega arith) (omega arith)
      (omega arith) (omega arith) (omega arith) fee_runs

-- A thousand out of a compounding pool with a fee of 1% on the input.
abbrev setup : FeeSetup
setup = record {
  has_referral = true;
  protocol_fee_percent = 20;
  compounding_fee_bps = 5000;
  referral_fee_percent = 20;
}

abbrev six_split : SplitFees
six_split = record { claiming_fee = 3; compounding_fee = 2; protocol_fee = 1; referral_fee = 0 }

abbrev asked_out : SwapResult
asked_out = record {
  included_fee_input_amount = 507;
  excluded_fee_input_amount = 501;
  output_amount = 1000;
  amount_left = 0;
  split_fees = six_split;
}

abbrev paid_in : SwapResult
paid_in = record {
  included_fee_input_amount = 507;
  excluded_fee_input_amount = 501;
  output_amount = 1001;
  amount_left = 0;
  split_fees = six_split;
}

exact_out_runs :
    quote_exact_out_compounding 1000 1_000_000 2_000_000 a_to_b 10_000_000 true setup ≡ ok asked_out
unfolding quote_exact_out_compounding exact_out_input input_for_output a_to_b_from_amount_out
    get_included_fee_amount split_trading_fees safe_mul_div_cast_u64 mul_checked div_rounded
    div_floor div_ceil cast_to_unsigned sub_wrap compounding_share referral_share
exact_out_runs = refl

exact_in_runs :
    quote_exact_in_compounding 507 1_000_000 2_000_000 a_to_b 10_000_000 true setup ≡ ok paid_in
unfolding quote_exact_in_compounding fee_if get_fee_on_amount curve_output a_to_b_from_amount_in
    get_excluded_fee_amount split_trading_fees safe_mul_div_cast_u64 mul_checked div_rounded
    div_floor div_ceil cast_to_unsigned sub_wrap add_wrap compounding_share referral_share
exact_in_runs = refl

quote_exact_in-quote_exact_out_example : 1000 ≤ 1001
quote_exact_in-quote_exact_out_example =
    quote_exact_in-quote_exact_out 1000 1_000_000 2_000_000 a_to_b 10_000_000 true setup
      {q = asked_out} {r = paid_in} (omega arith) (omega arith) exact_out_runs exact_in_runs
      (omega arith)

quote_exact_in_compounding-KeepsReserves_example :
    KeepsReserves true 507 1_000_000 2_000_000 paid_in
quote_exact_in_compounding-KeepsReserves_example =
    quote_exact_in_compounding-KeepsReserves 507 1_000_000 2_000_000 a_to_b 10_000_000 true setup
      (omega arith) (omega arith)
      (record { protocol = omega arith; compounding = omega arith; referral = omega arith })
      exact_in_runs (omega arith)
