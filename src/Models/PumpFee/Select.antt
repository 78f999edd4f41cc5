-- ===== src/Models/PumpFee/Select.antt =====
-- models/pump_fee.go: the fee of a swap. A nil config is `none`.
pub mod Tiers
use soldex.Base.{
  ℕ, zero, suc, ◌+◌, ◌-◌, ◌*◌, ◌/◌, ◌%◌, ◌^◌, ◌≤◌, ◌<◌, ◌≡◌, ◌≢◌, refl, sym, ap, ◌∙◌, ◌↔◌, ◌⊎◌, inl,
  inr, arith, Bool, true, false, not, ◌&&◌, ◌||◌, Option, none, some, List, [], ◌∷◌, ◌++◌, ltb, leb,
  ◌==◌, if◌then◌else◌, Result, ok, err, ◌>>=◌, ◌>>◌, Error, math_overflow, divide_by_zero,
  negative_value, type_cast_failed, fail_if, zero_output, unsupported_curve, unknown_creator_fee_on,
  invalid_pool, amount_overflow, negative_liquidity, swap_disabled, insufficient_data,
  invalid_discriminator, panicked, insufficient_liquidity, price_range_violation, compounding_pool,
  >>=-eq-ok, ok-injective, Bool-cases, Option-cases, ltb→lt, ltb→le, leb→le, leb→lt, ==→eq, lt→ltb,
  le→ltb, le→leb,
}
use soldex.Base.Words.{add_wrap}
use soldex.Models.PumpPool.{SolanaKeys, PumpPool}
use soldex.Models.PumpFee.{PumpFees, PumpGlobalConfig, PumpFeeTier, PumpFeeConfig, no_fees}

-- An integer division by the base reserve, of a product that is not reduced to a word.
unfoldable pub pump_market_cap : (quote_reserve base_reserve base_supply : ℕ) → ℕ
pump_market_cap quote_reserve base_reserve base_supply =
    if base_reserve == 0 then 0 else quote_reserve * base_supply / base_reserve

pub data PumpQuoteClass : Type 0 where
  sol stable exotic : PumpQuoteClass

unfoldable pub classify_pump_quote_mint : (keys : SolanaKeys) → keys.PublicKey → PumpQuoteClass
classify_pump_quote_mint keys mint =
    if keys.is_zero mint || keys.equals mint keys.wsol_mint
    then sol
    else if keys.equals mint keys.usdc_mint || keys.equals mint keys.usdt_mint
    then stable
    else exotic

-- `err == nil && pda.Equals(creator)`
unfoldable pub is_pump_bonding_pool :
    (keys : SolanaKeys) → (base_mint creator : keys.PublicKey) → Bool
is_pump_bonding_pool keys base_mint creator = elim (keys.pool_authority base_mint) [
  | none ↦ false
  | some pda ↦ keys.equals pda creator
]

-- The last tier whose threshold the cap meets.
unfoldable pub last_met : List PumpFeeTier → (market_cap : ℕ) → Option PumpFees
last_met [] market_cap = none
last_met (tier ∷ tiers) market_cap = elim (last_met tiers market_cap) [
  | some fees ↦ some fees
  | none ↦ if leb tier.market_cap_threshold market_cap then some (tier.fees) else none
]

unfoldable pub tier_fees : List PumpFeeTier → (market_cap : ℕ) → PumpFees
tier_fees [] market_cap = no_fees
tier_fees (tier ∷ tiers) market_cap =
    if ltb market_cap tier.market_cap_threshold
    then tier.fees
    else elim (last_met (tier ∷ tiers) market_cap) [ some fees ↦ fees | none ↦ tier.fees ]

abbrev pub is_no_fees : PumpFees → Bool
is_no_fees f = f.lp_bps == 0 && f.protocol_bps == 0 && f.creator_bps == 0

-- `tiers := fc.StableTiers; if len(tiers) == 0 { tiers = fc.Tiers }`
unfoldable pub tiers_or : List PumpFeeTier → List PumpFeeTier → List PumpFeeTier
tiers_or [] others = others
tiers_or (tier ∷ tiers) others = tier ∷ tiers

-- The schedule of a graduated pool.
unfoldable pub graduate_fees : PumpFeeConfig → PumpQuoteClass → (market_cap : ℕ) → PumpFees
graduate_fees fc sol market_cap = tier_fees fc.tiers market_cap
graduate_fees fc stable market_cap = tier_fees (tiers_or fc.stable_tiers fc.tiers) market_cap
graduate_fees fc exotic market_cap = if is_no_fees fc.exotic_flat then fc.flat else fc.exotic_flat

-- Without a fee config the global one is read through its pointer.
unfoldable pub global_fees : Option PumpGlobalConfig → Result PumpFees
global_fees none = err panicked
global_fees (some g) =
    ok (record {
      lp_bps = g.lp_bps;
      protocol_bps = g.protocol_bps;
      creator_bps = g.coin_creator_bps;
    })

unfoldable pub schedule_fees :
    (keys : SolanaKeys)
    → Option PumpGlobalConfig
    → Option PumpFeeConfig
    → PumpPool keys
    → (market_cap : ℕ) → Result PumpFees
schedule_fees keys g none pool market_cap = global_fees g
schedule_fees keys g (some fc) pool market_cap = ok (
    if is_pump_bonding_pool keys pool.base_mint pool.creator
    then graduate_fees fc (classify_pump_quote_mint keys pool.quote_mint) market_cap
    else fc.flat)

-- `pool.CreatorFeeBps > 0 && g != nil && g.CreatorFeeConfigurable`, and the override under its cap.
unfoldable pub override_of : Option PumpGlobalConfig → (creator_fee_bps : ℕ) → Option ℕ
override_of none creator_fee_bps = none
override_of (some g) creator_fee_bps =
    let max = g.max_configurable_creator_fee_bps in
    if ltb 0 creator_fee_bps && g.creator_fee_configurable
    then some (if ltb 0 max && ltb max creator_fee_bps then max else creator_fee_bps)
    else none

unfoldable pub pump_creator_fee_bps :
    (keys : SolanaKeys) → Option PumpGlobalConfig → PumpFees → PumpPool keys → ℕ
pump_creator_fee_bps keys g f pool = elim (override_of g pool.creator_fee_bps) [
  | some override ↦ override
  | none ↦ if keys.is_zero pool.coin_creator then 0 else f.creator_bps
]

unfoldable pub pump_total_fee_bps :
    (keys : SolanaKeys)
    → Option PumpGlobalConfig
    → Option PumpFeeConfig
    → PumpPool keys
    → (base_reserve quote_reserve base_supply : ℕ) → Result ℕ
pump_total_fee_bps keys g fc pool base_reserve quote_reserve base_supply = do
  f ← schedule_fees keys g fc pool (pump_market_cap quote_reserve base_reserve base_supply)
  ok (add_wrap (add_wrap f.lp_bps f.protocol_bps) (pump_creator_fee_bps keys g f pool))
