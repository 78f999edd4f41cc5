-- ===== src/Quote/Damm/Compounding/RoundTrip.antt =====
-- quote/damm/compounding_quote.go: an exact-out quote, paid as an exact-in quote.
use mathlib.Core.Path.{subst}
use soldex.Base.{
  ℕ, ◌+◌, ◌-◌, ◌*◌, ◌≤◌, ◌<◌, ◌≡◌, sym, ap, arith, Bool, true, false, not, if◌then◌else◌, ok,
  >>=-eq-ok, ok-injective,
}
use soldex.Base.Words.{u64_mod}
use soldex.Quote.Damm.Fees.{
  TradeDirection, SwapResult, fee_denominator, get_excluded_fee_amount, get_included_fee_amount,
  get_fee_on_amount, split_trading_fees, FeeOnAmountResult,
}
use soldex.Quote.Damm.Compounding.{
  FeeSetup, fee_if, curve_output, input_for_output, exact_out_input, quote_exact_in_compounding,
  quote_exact_out_compounding,
}
use soldex.Quote.Damm.Compounding.CurveSteps.{
  reserve_in, reserve_out, curve_output-ok, input_for_output-ok, curve-round_trip,
  get_excluded_fee_amount-ge, get_included_fee_amount-ok,
}

-- What `GetFeeOnAmount` leaves is what `GetExcludedFeeAmount` leaves.
pub fee_if-excluded :
    (amount rate : ℕ) (setup : FeeSetup) {r : FeeOnAmountResult}
    → fee_if true amount rate setup ≡ ok r
    → (p : ℕ × ℕ) × (get_excluded_fee_amount rate amount ≡ ok p) × (r.amount ≡ p.0)
unfolding fee_if get_fee_on_amount
fee_if-excluded amount rate setup h =
    let (p, e₁, h₁) = >>=-eq-ok (get_excluded_fee_amount rate amount) _ h in
    let (s, e₂, h₂) =
      >>=-eq-ok
        (split_trading_fees (p.1) setup.protocol_fee_percent setup.compounding_fee_bps
          setup.referral_fee_percent setup.has_referral)
        _ h₁ in
    (p, e₁, ap (λ r. r.amount) (sym (ok-injective h₂)))

-- The fee where it is taken is the same, the amount where it is not.
pub fee_if-none :
    (amount rate : ℕ) (setup : FeeSetup) {r : FeeOnAmountResult}
    → fee_if false amount rate setup ≡ ok r
    → r.amount ≡ amount
unfolding fee_if
fee_if-none amount rate setup h = ap (λ r. r.amount) (sym (ok-injective h))

-- The three amounts of a successful exact-in quote.
pub quote_exact_in-steps :
    (amount_in token_a token_b : ℕ) (direction : TradeDirection) (rate : ℕ) (on_input : Bool)
    (setup : FeeSetup) {q : SwapResult}
    → quote_exact_in_compounding amount_in token_a token_b direction rate on_input setup ≡ ok q
    → (i : FeeOnAmountResult) × (v : ℕ) × (o : FeeOnAmountResult) × (fee_if on_input amount_in rate
          setup
        ≡ ok i)
      × (curve_output direction token_a token_b i.amount ≡ ok v)
      × (fee_if (not on_input) v rate setup ≡ ok o)
      × (q.output_amount ≡ o.amount)
      × (q.excluded_fee_input_amount ≡ i.amount)
      × (q.split_fees ≡ (if on_input then i.split else o.split))
unfolding quote_exact_in_compounding
quote_exact_in-steps amount_in a b direction rate on_input setup h =
    let (i, e₁, h₁) = >>=-eq-ok (fee_if on_input amount_in rate setup) _ h in
    let (v, e₂, h₂) = >>=-eq-ok (curve_output direction a b (i.amount)) _ h₁ in
    let (o, e₃, h₃) = >>=-eq-ok (fee_if (not on_input) v rate setup) _ h₂ in
    let same = sym (ok-injective h₃) in
    (
      i,
      v,
      o,
      e₁,
      e₂,
      e₃,
      ap (λ r. r.output_amount) same,
      ap (λ r. r.excluded_fee_input_amount) same,
      ap (λ r. r.split_fees) same,
    )

-- The input of a successful exact-out quote.
quote_exact_out-input :
    (amount_out token_a token_b : ℕ) (direction : TradeDirection) (rate : ℕ) (on_input : Bool)
    (setup : FeeSetup) {q : SwapResult}
    → quote_exact_out_compounding amount_out token_a token_b direction rate on_input setup ≡ ok q
    → (t : ℕ × ℕ × ℕ) × (exact_out_input amount_out token_a token_b direction rate on_input ≡ ok t)
      × (q.included_fee_input_amount ≡ t.0)
unfolding quote_exact_out_compounding
quote_exact_out-input out a b direction rate on_input setup h =
    let (t, e₁, h₁) = >>=-eq-ok (exact_out_input out a b direction rate on_input) _ h in
    let (s, e₂, h₂) =
      >>=-eq-ok
        (split_trading_fees (t.2) setup.protocol_fee_percent setup.compounding_fee_bps
          setup.referral_fee_percent setup.has_referral)
        _ h₁ in
    (t, e₁, ap (λ r. r.included_fee_input_amount) (sym (ok-injective h₂)))

module _ (out a b : ℕ) (direction : TradeDirection) (rate : ℕ) (setup : FeeSetup)
    (out_fits : reserve_out direction a b < u64_mod) (rated : rate < fee_denominator) where
  -- With the fee on the input.
  on_input-round_trip :
      (t : ℕ × ℕ × ℕ) (i o : FeeOnAmountResult) (v : ℕ)
      → exact_out_input out a b direction rate true ≡ ok t
      → fee_if true t.0 rate setup ≡ ok i
      → curve_output direction a b i.amount ≡ ok v
      → fee_if false v rate setup ≡ ok o
      → reserve_in direction a b + i.amount < u64_mod
      → out ≤ o.amount
  unfolding exact_out_input
  on_input-round_trip t i o v h e₁ e₂ e₃ fits =
      let (net, f₁, h₁) = >>=-eq-ok (input_for_output a b out direction) _ h in
      let (p, f₂, h₂) = >>=-eq-ok (get_included_fee_amount rate net) _ h₁ in
      let (less, q, _) = input_for_output-ok direction a b out f₁ out_fits in
      let (covers, small) = get_included_fee_amount-ok rate net f₂ rated in
      let included : p.0 ≡ t.0 = ap (λ r. r.0) (ok-injective h₂) in
      let (x, g, rest) = fee_if-excluded (t.0) rate setup e₁ in
      let enough =
        get_excluded_fee_amount-ge rate (t.0) net g (rw included at small) rated
          (rw included at covers) in
      let (positive, curve, _) = curve_output-ok direction a b (i.amount) e₂ fits in
      let good =
        curve-round_trip (reserve_in direction a b) (reserve_out direction a b) out net (i.amount)
          less q (omega arith) positive in
      omega (arith, fee_if-none v rate setup e₃)

  -- With the fee on the output.
  on_output-round_trip :
      (t : ℕ × ℕ × ℕ) (i o : FeeOnAmountResult) (v : ℕ)
      → exact_out_input out a b direction rate false ≡ ok t
      → fee_if false t.0 rate setup ≡ ok i
      → curve_output direction a b i.amount ≡ ok v
      → fee_if true v rate setup ≡ ok o
      → reserve_in direction a b + i.amount < u64_mod
      → out ≤ o.amount
  unfolding exact_out_input
  on_output-round_trip t i o v h e₁ e₂ e₃ fits =
      let (p, f₁, h₁) = >>=-eq-ok (get_included_fee_amount rate out) _ h in
      let (n, f₂, h₂) = >>=-eq-ok (input_for_output a b (p.0) direction) _ h₁ in
      let (covers, _) = get_included_fee_amount-ok rate out f₁ rated in
      let (less, q, _) = input_for_output-ok direction a b (p.0) f₂ out_fits in
      let input : n ≡ t.0 = ap (λ r. r.0) (ok-injective h₂) in
      let (positive, curve, small) = curve_output-ok direction a b (i.amount) e₂ fits in
      let gross =
        curve-round_trip (reserve_in direction a b) (reserve_out direction a b) (p.0) n (i.amount)
          less q (omega (arith, fee_if-none (t.0) rate setup e₁)) positive in
      let more : p.0 ≤ v = omega arith in
      let scaled : p.0 * (fee_denominator - rate) ≤ v * (fee_denominator - rate) = grind arith in
      let (x, g, rest) = fee_if-excluded v rate setup e₃ in
      let enough = get_excluded_fee_amount-ge rate v out g small rated (omega arith) in omega arith

  either_side :
      (on_input : Bool) (t : ℕ × ℕ × ℕ) (i o : FeeOnAmountResult) (v : ℕ)
      → exact_out_input out a b direction rate on_input ≡ ok t
      → fee_if on_input t.0 rate setup ≡ ok i
      → curve_output direction a b i.amount ≡ ok v
      → fee_if (not on_input) v rate setup ≡ ok o
      → reserve_in direction a b + i.amount < u64_mod
      → out ≤ o.amount
  either_side true = on_input-round_trip
  either_side false = on_output-round_trip

-- The input, fee included, that an exact-out quote asks for gives at least that output when it is
-- quoted as an exact input at the same reserves, in either direction and with the fee on either side;
-- for a rate below the denominator, an output reserve that is a uint64, and an input that does not
-- take the input reserve past one.
pub quote_exact_in-quote_exact_out :
    (amount_out token_a token_b : ℕ) (direction : TradeDirection) (rate : ℕ) (on_input : Bool)
    (setup : FeeSetup) {q r : SwapResult}
    → reserve_out direction token_a token_b < u64_mod
    → rate < fee_denominator
    → quote_exact_out_compounding amount_out token_a token_b direction rate on_input setup ≡ ok q
    → quote_exact_in_compounding q.included_fee_input_amount token_a token_b direction rate on_input
        setup
      ≡ ok r
    → reserve_in direction token_a token_b + r.excluded_fee_input_amount < u64_mod
    → amount_out ≤ r.output_amount
quote_exact_in-quote_exact_out out a b direction rate on_input setup {q} fits rated h k room =
    let (t, e, same) = quote_exact_out-input out a b direction rate on_input setup h in
    let (i, v, o, e₁, e₂, e₃, given, net, _) =
      quote_exact_in-steps q.included_fee_input_amount a b direction rate on_input setup k in
    rw given (
      either_side out a b direction rate setup fits rated on_input t i o v e
        (subst (λ n. fee_if on_input n rate setup ≡ ok i) same e₁) e₂ e₃ (rw net at room))
