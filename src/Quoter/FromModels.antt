-- ===== src/Quoter/FromModels.antt =====
-- from_models.go: the constructors of the constant-product quoters. An error that the code wraps in
-- ErrPoolNotQuotable is `pool_not_quotable`. A pointer that may be nil is an option.
use soldex.Base.{
  ℕ, true, not, ◌||◌, Option, none, some, leb, ◌==◌, if◌then◌else◌, Result, ok, err, ◌>>=◌,
  pool_not_quotable,
}
use soldex.Models.PumpPool.{SolanaKeys, PumpPool, effective_quote_reserve}
use soldex.Models.PumpFee.{PumpGlobalConfig, PumpFeeConfig}
use soldex.Models.PumpFee.Select.{pump_total_fee_bps}
use soldex.Models.BondingCurve.{BondingCurve, is_sol_quoted}
use soldex.Models.RaydiumCpmm
use soldex.Models.RaydiumCpmm.{
  RaydiumCpmmPool, RaydiumCpmmConfig, effective_creator_fee_rate, is_swap_disabled,
}
use soldex.Models.RaydiumAmmV4
use soldex.Models.RaydiumAmmV4.{RaydiumAmmV4Pool, can_swap_no_orderbook}
use soldex.Quote.Constant.RayCpmm.{creator_fee_on_input}
use soldex.Quoter.{Quoter, raydium_cpmm, raydium_amm_v4, pump, pump_bonding_curve}

-- `fmt.Errorf` with `%w` of ErrPoolNotQuotable around an error.
unfoldable pub wrapped {ℓ} : {T : Type ℓ} → Result T → Result T
wrapped (ok x) = ok x
wrapped (err e) = err pool_not_quotable

-- A quoter over two reserves, neither of them empty.
unfoldable pub over_reserves : ℕ × ℕ → (ℕ → ℕ → Quoter) → Result Quoter
over_reserves (a, b) quoter =
    if (a == 0) || (b == 0) then err pool_not_quotable else ok (quoter a b)

module _ {keys : SolanaKeys} where
  unfoldable pub from_raydium_cpmm :
      Option (RaydiumCpmmPool keys)
      → Option (RaydiumCpmmConfig keys)
      → (vault_0 vault_1 : ℕ) → Result Quoter
  from_raydium_cpmm none cfg vault_0 vault_1 = err pool_not_quotable
  from_raydium_cpmm (some p) none vault_0 vault_1 = err pool_not_quotable
  from_raydium_cpmm (some p) (some cfg) vault_0 vault_1 =
      if is_swap_disabled (some p) then err pool_not_quotable else (do
        on_input ← wrapped (creator_fee_on_input p.creator_fee_on true)
        over_reserves (RaydiumCpmm.net_reserves p vault_0 vault_1) (λ r_0 r_1.
            raydium_cpmm r_0 r_1 cfg.trade_fee_rate (effective_creator_fee_rate (some p) (some cfg))
              p.creator_fee_on))

  unfoldable pub from_raydium_amm_v4 :
      Option (RaydiumAmmV4Pool keys) → (coin_vault pc_vault now : ℕ) → Result Quoter
  from_raydium_amm_v4 none coin_vault pc_vault now = err pool_not_quotable
  from_raydium_amm_v4 (some p) coin_vault pc_vault now =
      if not (can_swap_no_orderbook p now)
      then err pool_not_quotable
      else if (p.swap_fee_denominator == 0) || leb p.swap_fee_denominator p.swap_fee_numerator
      then err pool_not_quotable
      else (do
        reserves ← wrapped (RaydiumAmmV4.net_reserves p coin_vault pc_vault)
        over_reserves reserves
            (λ coin pc. raydium_amm_v4 coin pc p.swap_fee_numerator p.swap_fee_denominator))

unfoldable pub from_pump_pool :
    (keys : SolanaKeys)
    → Option (PumpPool keys)
    → Option PumpGlobalConfig
    → Option PumpFeeConfig
    → (base_vault quote_vault base_supply : ℕ) → Result Quoter
from_pump_pool keys none global fee_cfg base_vault quote_vault base_supply = err pool_not_quotable
from_pump_pool keys (some p) none fee_cfg base_vault quote_vault base_supply = err pool_not_quotable
from_pump_pool keys (some p) (some global) fee_cfg base_vault quote_vault base_supply =
    let quote_reserve = effective_quote_reserve keys (some p) quote_vault in
    if (base_vault == 0) || (quote_reserve == 0) then err pool_not_quotable else (do
      fee_bps ← pump_total_fee_bps keys (some global) fee_cfg p base_vault quote_reserve base_supply
      ok (pump base_vault quote_reserve fee_bps))

unfoldable pub from_bonding_curve :
    (keys : SolanaKeys) → Option (BondingCurve keys) → (fee_bps : ℕ) → Result Quoter
from_bonding_curve keys none fee_bps = err pool_not_quotable
from_bonding_curve keys (some c) fee_bps =
    if c.complete
    then err pool_not_quotable
    else if not (is_sol_quoted keys (some c))
    then err pool_not_quotable
    else over_reserves (c.virtual_token_reserves, c.virtual_sol_reserves)
        (λ token sol. pump_bonding_curve token sol fee_bps)
