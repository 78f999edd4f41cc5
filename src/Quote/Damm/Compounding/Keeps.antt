-- ===== src/Quote/Damm/Compounding/Keeps.antt =====
-- quote/damm/compounding_quote.go: an exact-in quote keeps the product of the reserves.
use soldex.Base.{ℕ, ◌+◌, ◌≤◌, ◌<◌, ◌≡◌, arith, Bool, true, false, if◌then◌else◌, ok}
use soldex.Base.Words.{u64_mod}
use soldex.Quote.Constant.Product.{KeepsProduct, curve-KeepsProduct}
use soldex.Quote.Damm.Fees.{
  TradeDirection, SplitFees, SwapResult, FeeOnAmountResult, fee_denominator, max_basis_point,
}
use soldex.Quote.Damm.Fees.Split.{get_fee_on_amount-TakesFee}
use soldex.Quote.Damm.Compounding.{FeeSetup, fee_if, quote_exact_in_compounding}
use soldex.Quote.Damm.Compounding.CurveSteps.{reserve_in, reserve_out, curve_output-ok}
use soldex.Quote.Damm.Compounding.RoundTrip.{fee_if-none, quote_exact_in-steps}

-- The percentages and basis points of a pool's configuration.
pub record IsSetup (setup : FeeSetup) : Type 0 where
  pub protocol : setup.protocol_fee_percent ≤ 100
  pub compounding : setup.compounding_fee_bps ≤ max_basis_point
  pub referral : setup.referral_fee_percent ≤ 100

abbrev pub fee_sum : SplitFees → ℕ
fee_sum s = s.claiming_fee + s.compounding_fee + s.protocol_fee + s.referral_fee

-- What a quote of `amount_in` does to reserves `x` and `y`: the input and what it leaves for the
-- curve, and the output with the fee that is taken on it.
abbrev pub gross_output : Bool → SwapResult → ℕ
gross_output on_input q = q.output_amount + (if on_input then 0 else fee_sum q.split_fees)

pub record KeepsReserves (on_input : Bool) (amount_in x y : ℕ) (q : SwapResult) : Type 0 where
  pub paid :
      q.excluded_fee_input_amount + (if on_input then fee_sum q.split_fees else 0) ≡ amount_in
  pub keeps : KeepsProduct x y q.excluded_fee_input_amount (gross_output on_input q)

fee_if-whole :
    (amount rate : ℕ) (setup : FeeSetup) {r : FeeOnAmountResult}
    → amount < u64_mod
    → rate ≤ fee_denominator
    → IsSetup setup
    → fee_if true amount rate setup ≡ ok r
    → r.amount + fee_sum r.split ≡ amount
unfolding fee_if
fee_if-whole amount rate setup {r} fits hn valid h =
    let taken =
      get_fee_on_amount-TakesFee amount rate setup.protocol_fee_percent setup.compounding_fee_bps
        setup.referral_fee_percent setup.has_referral fits hn valid.protocol valid.compounding
        valid.referral h in
    let whole : fee_sum r.split ≡ taken.fee = taken.split.whole in omega (arith, taken.whole)

-- A successful exact-in quote of a uint64 amount, at a rate of at most the denominator, with a pool's
-- percentages and without taking the input reserve past a uint64: the net input and the fee on the
-- input add up to the amount; the output with the fee on it is at most the output reserve; and the
-- product of the reserves does not fall when the net input is added and that output is taken.
pub quote_exact_in_compounding-KeepsReserves :
    (amount_in token_a token_b : ℕ) (direction : TradeDirection) (rate : ℕ) (on_input : Bool)
    (setup : FeeSetup) {q : SwapResult}
    → amount_in < u64_mod
    → rate ≤ fee_denominator
    → IsSetup setup
    → quote_exact_in_compounding amount_in token_a token_b direction rate on_input setup ≡ ok q
    → reserve_in direction token_a token_b + amount_in < u64_mod
    → KeepsReserves on_input amount_in
        (reserve_in direction token_a token_b)
        (reserve_out direction token_a token_b)
        q
quote_exact_in_compounding-KeepsReserves amount_in a b direction rate true setup {q} fits hn valid h
      room =
    let (i, v, o, e₁, e₂, e₃, given, net, split) =
      quote_exact_in-steps amount_in a b direction rate true setup h in
    let whole = fee_if-whole amount_in rate setup fits hn valid e₁ in
    let (positive, curve, _) = curve_output-ok direction a b (i.amount) e₂ (omega arith) in
    let same : gross_output true q ≡ v = omega (arith, fee_if-none v rate setup e₃) in
    record {
      paid = rw (net, split) whole;
      keeps = rw (net, same, curve) (curve-KeepsProduct _ _ _ positive);
    }
quote_exact_in_compounding-KeepsReserves amount_in a b direction rate false setup {q} fits hn valid
      h room =
    let (i, v, o, e₁, e₂, e₃, given, net, split) =
      quote_exact_in-steps amount_in a b direction rate false setup h in
    let all = fee_if-none amount_in rate setup e₁ in
    let (positive, curve, small) = curve_output-ok direction a b (i.amount) e₂ (omega arith) in
    let same : gross_output false q ≡ v =
      rw (given, split) (fee_if-whole v rate setup small hn valid e₃) in
    record { paid = omega arith; keeps = rw (net, same, curve) (curve-KeepsProduct _ _ _ positive) }
