-- ===== src/Quote/Constant/FluxBeam/Keeps.antt =====
-- quote/fluxbeam/swap_quote.go: what a successful swap keeps, and when a swap fails.
use soldex.Base.{
  ℕ, ◌+◌, ◌-◌, ◌*◌, ◌/◌, ◌<◌, ◌≡◌, ◌≢◌, ◌↔◌, inl, inr, arith, ◌==◌, ok, Bool-cases, ==→eq,
}
use soldex.Base.Words.{u64_mod}
use soldex.Quote.Constant.Product.{KeepsProduct, curve-KeepsProduct, KeepsProduct-less}
use soldex.Quote.Constant.FluxBeam.{
  FluxBeamFees, swap_exact_in, quote_exact_in, calculate_fee, curve_constant_product,
}

-- The input that the two fees leave, 0 if they eat it.
abbrev pub net_input : ℕ → FluxBeamFees → ℕ
net_input amount_in fees =
    amount_in
    - (calculate_fee amount_in fees.trade_fee_numerator fees.trade_fee_denominator
        + calculate_fee amount_in fees.owner_trade_fee_numerator fees.owner_trade_fee_denominator)

-- The curve at the net input.
abbrev pub curve_out : (reserve_in reserve_out net : ℕ) → ℕ
curve_out reserve_in reserve_out net = reserve_out * net / (reserve_in + net)

net_input-zero :
    (reserve_in reserve_out amount_in : ℕ) (fees : FluxBeamFees) (out : ℕ)
    → net_input amount_in fees ≡ 0
    → swap_exact_in reserve_in reserve_out amount_in fees ≢ ok out
unfolding swap_exact_in
net_input-zero reserve_in reserve_out amount_in fees out h k = ground arith

net_input-pos :
    (reserve_in reserve_out amount_in : ℕ) (fees : FluxBeamFees) (out : ℕ)
    → 0 < net_input amount_in fees
    → curve_out reserve_in reserve_out (net_input amount_in fees) < u64_mod
    → (swap_exact_in reserve_in reserve_out amount_in fees ≡ ok out)
      ↔ ((0 < out) × (out ≡ curve_out reserve_in reserve_out (net_input amount_in fees)))
unfolding swap_exact_in
net_input-pos reserve_in reserve_out amount_in fees out h k = ground arith

-- Over a uint64 reserve, a swap returns a value exactly when the fees leave some of the input and the
-- curve gives something for it; the value is then the curve's.
swap_exact_in_iff :
    (reserve_in reserve_out amount_in : ℕ) (fees : FluxBeamFees) (out : ℕ)
    → reserve_out < u64_mod
    → (swap_exact_in reserve_in reserve_out amount_in fees ≡ ok out) ↔ (
        (0 < net_input amount_in fees)
        × (0 < out)
        × (out ≡ curve_out reserve_in reserve_out (net_input amount_in fees)))
unfolding swap_exact_in
swap_exact_in_iff reserve_in reserve_out amount_in fees out fits =
    let net = net_input amount_in fees in
    elim (Bool-cases (net == 0)) [
      | inl none_left ↦
          let e = ==→eq _ _ none_left in
          (
            λ h. absurd (net_input-zero reserve_in reserve_out amount_in fees out e h),
            λ (h, _, _). absurd (omega arith),
          )
      | inr some_left ↦
          let h : 0 < net = ground arith in
          let (le, _) = curve-KeepsProduct reserve_in reserve_out net (omega arith) in
          let (to, from) =
            net_input-pos reserve_in reserve_out amount_in fees out h (omega arith) in
          (λ e. (h, (to e).0, (to e).1), λ (_, positive, e). from (positive, e))
    ]

-- A successful quote over a uint64 reserve is of a constant-product pool, and gives something: the
-- reserve covers the output, and the product of the reserves, with the whole amount paid in, does not
-- fall.
pub quote_exact_in-KeepsProduct :
    (curve_type reserve_in reserve_out amount_in : ℕ) (fees : FluxBeamFees) (out : ℕ)
    → reserve_out < u64_mod
    → quote_exact_in curve_type reserve_in reserve_out amount_in fees ≡ ok out
    → (curve_type ≡ curve_constant_product)
      × (0 < out)
      × KeepsProduct reserve_in reserve_out amount_in out
unfolding quote_exact_in
quote_exact_in-KeepsProduct curve_type reserve_in reserve_out amount_in fees out fits h =
    let net = net_input amount_in fees in
    elim (Bool-cases (curve_type == curve_constant_product)) [
      | inr other ↦ cc (rw other at h)
      | inl same ↦
          let (positive, some_out, e) =
            (swap_exact_in_iff reserve_in reserve_out amount_in fees out fits).0 (rw same at h) in
          let keeps = curve-KeepsProduct reserve_in reserve_out net (omega arith) in
          (
            ==→eq _ _ same,
            some_out,
            KeepsProduct-less reserve_in reserve_out net amount_in
                (curve_out reserve_in reserve_out net) out (omega arith) (omega arith) keeps,
          )
    ]
