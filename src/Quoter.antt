-- ===== src/Quoter.antt =====
-- soldex.go: the quoters of the constant-product venues, over an assembled input. The second argument
-- of a quoter is whether the pool's first token goes in.
pub mod FromModels
pub mod Keeps
pub mod FluxBeam
use soldex.Base.{
  ℕ, zero, suc, ◌+◌, ◌-◌, ◌*◌, ◌/◌, ◌%◌, ◌^◌, ◌≤◌, ◌<◌, ◌≡◌, ◌≢◌, refl, sym, ap, ◌∙◌, ◌↔◌, ◌⊎◌, inl,
  inr, arith, Bool, true, false, not, ◌&&◌, ◌||◌, Option, none, some, List, [], ◌∷◌, ◌++◌, ltb, leb,
  ◌==◌, if◌then◌else◌, Result, ok, err, ◌>>=◌, ◌>>◌, Error, math_overflow, divide_by_zero,
  negative_value, type_cast_failed, fail_if, zero_output, unsupported_curve, unknown_creator_fee_on,
  invalid_pool, amount_overflow, negative_liquidity, swap_disabled, insufficient_data,
  owes_more_pnl, pool_not_quotable, invalid_discriminator, panicked, insufficient_liquidity,
  price_range_violation, compounding_pool, >>=-eq-ok, ok-injective, Bool-cases, Option-cases,
  ltb→lt, ltb→le, leb→le, leb→lt, ==→eq, lt→ltb, le→ltb, le→leb,
}
use soldex.Quote.Constant.RayCpmm.{creator_fee_on_input, swap_base_input}
use soldex.Quote.Constant.RayAmmV4.{swap_base_in}
use soldex.Quote.Constant.Pump
use soldex.Quote.Constant.PumpCurve

abbrev pub Quoter : Type 0
Quoter = ℕ → Bool → Result ℕ

-- The panic of a division by zero.
unfoldable pub or_panic : Option ℕ → Result ℕ
or_panic none = err panicked
or_panic (some out) = ok out

unfoldable pub raydium_cpmm :
    (reserve_0 reserve_1 trade_fee_rate creator_fee_rate creator_fee_on : ℕ) → Quoter
raydium_cpmm reserve_0 reserve_1 trade creator creator_fee_on amount_in a_to_b = do
  on_input ← creator_fee_on_input creator_fee_on a_to_b
  ok (
      if a_to_b
      then swap_base_input reserve_0 reserve_1 amount_in trade creator on_input
      else swap_base_input reserve_1 reserve_0 amount_in trade creator on_input)

unfoldable pub raydium_amm_v4 : (coin_reserve pc_reserve fee_numerator fee_denominator : ℕ) → Quoter
raydium_amm_v4 coin pc num den amount_in a_to_b = ok (
    if a_to_b
    then swap_base_in coin pc amount_in num den
    else swap_base_in pc coin amount_in num den)

unfoldable pub pump : (base_reserve quote_reserve fee_bps : ℕ) → Quoter
pump base quote fee_bps amount_in a_to_b =
    if a_to_b
    then ok (Pump.sell_exact_in base quote amount_in fee_bps)
    else or_panic (Pump.buy_exact_in quote base amount_in fee_bps)

unfoldable pub pump_bonding_curve : (virtual_token virtual_quote fee_bps : ℕ) → Quoter
pump_bonding_curve token quote fee_bps amount_in a_to_b =
    if a_to_b
    then ok (PumpCurve.sell_exact_in token quote amount_in fee_bps)
    else or_panic (PumpCurve.buy_exact_in quote token amount_in fee_bps)
