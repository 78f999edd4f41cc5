-- ===== src/Quote/Constant/Pump/Keeps.antt =====
-- quote/pump/swap_quote.go and quote/pumpbc/swap_quote.go: what a buy and a sale keep, and the two
-- packages against one another.
use soldex.Base.{ℕ, ◌+◌, ◌-◌, ◌*◌, ◌/◌, ◌%◌, ◌≤◌, ◌<◌, ◌≡◌, refl, arith, some, ◌==◌, if◌then◌else◌}
use native.Mathlib.Nat.{mul-le-mul_left, div-le_of_le-mul}
use soldex.Base.Words.{u64_mod, add_wrap, sub_wrap, add_wrap_exact, sub_wrap_exact}
use soldex.Base.Division.{div_bounds, le_of_scaled}
use soldex.Quote.Constant.Product.{
  KeepsProduct, KeepsProduct-less, low_word, curve-KeepsProduct_all,
}
use soldex.Quote.Constant.Pump.{sell_exact_in, buy_exact_in, fee_denominator}
use soldex.Quote.Constant.PumpCurve

fee_factor :
    (fee_bps : ℕ)
    → fee_bps ≤ fee_denominator
    → sub_wrap fee_denominator fee_bps ≡ fee_denominator - fee_bps
fee_factor fee_bps h = sub_wrap_exact fee_denominator fee_bps h (omega arith)

-- A share of at most the whole.
share-le : (gross factor : ℕ) → factor ≤ fee_denominator → gross * factor / fee_denominator ≤ gross
share-le gross factor h = omega (arith, mul-le-mul_left gross h)

-- What a sale gives is at most the curve's output.
sell-le-curve :
    (base_reserve quote_reserve amount_in fee_bps : ℕ)
    → fee_bps ≤ fee_denominator
    → sell_exact_in base_reserve quote_reserve amount_in fee_bps
      ≤ quote_reserve * amount_in / (base_reserve + amount_in)
unfolding sell_exact_in
sell-le-curve base_reserve quote_reserve amount_in fee_bps h =
    let gross = quote_reserve * amount_in / (base_reserve + amount_in) in
    let factor = sub_wrap fee_denominator fee_bps in
    let fits : factor ≤ fee_denominator = omega (arith, fee_factor fee_bps h) in
    ground (arith, share-le gross factor fits)

-- At a fee of at most 10000 bps a sale keeps the product: the reserve covers the output, and the
-- product of the reserves, with the whole amount paid in, does not fall.
sell_exact_in-KeepsProduct :
    (base_reserve quote_reserve amount_in fee_bps : ℕ)
    → fee_bps ≤ fee_denominator
    → KeepsProduct base_reserve quote_reserve amount_in
        (sell_exact_in base_reserve quote_reserve amount_in fee_bps)
sell_exact_in-KeepsProduct base_reserve quote_reserve amount_in fee_bps h =
    KeepsProduct-less base_reserve quote_reserve amount_in amount_in _ _ (omega arith)
      (sell-le-curve base_reserve quote_reserve amount_in fee_bps h)
      (curve-KeepsProduct_all base_reserve quote_reserve amount_in)

eff-le :
    (amount_in fee_bps : ℕ) → amount_in * fee_denominator / (fee_denominator + fee_bps) ≤ amount_in
eff-le amount_in fee_bps =
    let divisor = fee_denominator + fee_bps in
    le_of_scaled (amount_in * fee_denominator / divisor) amount_in divisor
      (omega (arith, (div_bounds (amount_in * fee_denominator) divisor (omega arith)).0))

-- At a fee that does not wrap, a buy does not panic, and keeps the product: the reserve covers the
-- output, and the product of the reserves, with the whole amount paid in, does not fall.
pub buy_exact_in-KeepsProduct :
    (quote_reserve base_reserve amount_in fee_bps : ℕ)
    → fee_denominator + fee_bps < u64_mod
    → (out : ℕ) × (buy_exact_in quote_reserve base_reserve amount_in fee_bps ≡ some out)
      × KeepsProduct quote_reserve base_reserve amount_in out
unfolding buy_exact_in
buy_exact_in-KeepsProduct quote_reserve base_reserve amount_in fee_bps h =
    let divisor = add_wrap fee_denominator fee_bps in
    let e : divisor ≡ fee_denominator + fee_bps = add_wrap_exact fee_denominator fee_bps h in
    let eff = amount_in * fee_denominator / divisor in
    let den = quote_reserve + eff in
    let out : ℕ = if den == 0 then 0 else base_reserve * eff / den % u64_mod in
    let small : eff ≤ amount_in = rw e (eff-le amount_in fee_bps) in
    let less : out ≤ base_reserve * eff / den =
      ground (arith, low_word (base_reserve * eff / den)) in
    (
      out,
      ground arith,
      KeepsProduct-less quote_reserve base_reserve eff amount_in _ out small less
          (curve-KeepsProduct_all quote_reserve base_reserve eff),
    )

-- Selling back at most what was paid for.
sell_back :
    (q a out rest : ℕ) → q * (out + rest) ≤ (q + a) * rest → (q + a) * out / (rest + out) ≤ a
sell_back q a out rest h = div-le_of_le-mul (rest + out) (omega arith)

-- Buying and selling back what was bought, in the pool that the buy leaves and at any fees that do not
-- wrap or exceed the whole, returns at most the amount spent.
pub sell_exact_in-buy_exact_in :
    (quote_reserve base_reserve amount_in fee_bps fee_bps' out : ℕ)
    → fee_denominator + fee_bps < u64_mod
    → fee_bps' ≤ fee_denominator
    → buy_exact_in quote_reserve base_reserve amount_in fee_bps ≡ some out
    → sell_exact_in (base_reserve - out) (quote_reserve + amount_in) out fee_bps' ≤ amount_in
sell_exact_in-buy_exact_in q b a fee_bps fee_bps' out h k e =
    let (out', e', keeps) = buy_exact_in-KeepsProduct q b a fee_bps h in
    let same : out' ≡ out = cc in
    let most = sell-le-curve (b - out) (q + a) out fee_bps' k in
    let (le, product) = rw same at keeps in
    let sum : out + (b - out) ≡ b = omega arith in
    omega (arith, sell_back q a out (b - out) (rw sum product))

-- The bonding curve's package computes the same functions, its SOL for the quote token.
pub pump-eq-pump_curve :
    (base_reserve quote_reserve amount_in fee_bps : ℕ)
    → (PumpCurve.sell_exact_in base_reserve quote_reserve amount_in fee_bps
        ≡ sell_exact_in base_reserve quote_reserve amount_in fee_bps)
      × (PumpCurve.buy_exact_in quote_reserve base_reserve amount_in fee_bps
          ≡ buy_exact_in quote_reserve base_reserve amount_in fee_bps)
unfolding PumpCurve.sell_exact_in sell_exact_in PumpCurve.buy_exact_in buy_exact_in
pump-eq-pump_curve base_reserve quote_reserve amount_in fee_bps = (refl, refl)
