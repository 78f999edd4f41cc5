-- ===== src/Quoter/FluxBeam.antt =====
-- soldex.go, from_models.go: the FluxBeam quoter, with the transfer fees of the two mints around the
-- curve. A mint that charges nothing has no configuration.
pub mod Keeps
use soldex.Base.{
  ℕ, zero, suc, ◌+◌, ◌-◌, ◌*◌, ◌/◌, ◌%◌, ◌^◌, ◌≤◌, ◌<◌, ◌≡◌, ◌≢◌, refl, sym, ap, ◌∙◌, ◌↔◌, ◌⊎◌, inl,
  inr, arith, Bool, true, false, not, ◌&&◌, ◌||◌, Option, none, some, List, [], ◌∷◌, ◌++◌, ltb, leb,
  ◌==◌, if◌then◌else◌, Result, ok, err, ◌>>=◌, ◌>>◌, Error, math_overflow, divide_by_zero,
  negative_value, type_cast_failed, fail_if, zero_output, unsupported_curve, unknown_creator_fee_on,
  invalid_pool, amount_overflow, negative_liquidity, swap_disabled, insufficient_data,
  owes_more_pnl, pool_not_quotable, invalid_discriminator, panicked, insufficient_liquidity,
  price_range_violation, compounding_pool, >>=-eq-ok, ok-injective, Bool-cases, Option-cases,
  ltb→lt, ltb→le, leb→le, leb→lt, ==→eq, lt→ltb, le→ltb, le→leb,
}
use soldex.Models.PumpPool.{SolanaKeys}
use soldex.Models.TransferFee.{TransferFeeConfig, post_fee_amount, epoch_fee}
use soldex.Models.FluxBeam.{FluxBeamPool}
use soldex.Quote.Constant.FluxBeam.{FluxBeamFees, quote_exact_in}
use soldex.Quoter.{Quoter}

pub record FluxBeamSide : Type 0 where
  pub reserve : ℕ
  pub transfer_fee : Option TransferFeeConfig

unfoldable pub arriving : Option TransferFeeConfig → (epoch amount : ℕ) → ℕ
arriving none epoch amount = amount
arriving (some c) epoch amount = post_fee_amount (epoch_fee c epoch) amount

-- With the sides in the direction of the swap.
unfoldable pub quote_sides :
    (src dst : FluxBeamSide) (curve_type : ℕ) → FluxBeamFees → (epoch amount_in : ℕ) → Result ℕ
quote_sides src dst curve_type fees epoch amount_in = do
  amount_out ←
      quote_exact_in curve_type src.reserve dst.reserve (arriving src.transfer_fee epoch amount_in)
        fees
  ok (arriving dst.transfer_fee epoch amount_out)

unfoldable pub flux_beam :
    (a b : FluxBeamSide) (curve_type : ℕ) → FluxBeamFees → (epoch : ℕ) → Quoter
flux_beam a b curve_type fees epoch amount_in a_to_b =
    if a_to_b
    then quote_sides a b curve_type fees epoch amount_in
    else quote_sides b a curve_type fees epoch amount_in

unfoldable pub from_flux_beam_pool :
    (keys : SolanaKeys)
    → Option (FluxBeamPool keys)
    → (a b : FluxBeamSide) (epoch : ℕ) → Result Quoter
from_flux_beam_pool keys none a b epoch = err pool_not_quotable
from_flux_beam_pool keys (some p) a b epoch =
    if (a.reserve == 0) || (b.reserve == 0)
    then err pool_not_quotable
    else ok (flux_beam a b p.curve_type p.fees epoch)
