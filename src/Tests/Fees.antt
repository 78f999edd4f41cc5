-- ===== src/Tests/Fees.antt =====
-- models at concrete inputs: the rate limiter, the blob of a base fee, and the Pump accounts.
use soldex.Base.{
  ℕ, zero, suc, ◌+◌, ◌≤◌, ◌<◌, ◌≡◌, refl, ◌⊎◌, arith, false, some, List, [], ◌∷◌, ◌++◌, ◌==◌, ok,
  err, insufficient_data,
}
use soldex.Base.Int.{negsuc}
use soldex.Base.Division.{ceil_div}
use soldex.Models.Bytes.{length}
use soldex.Models.BaseFee.{DammBaseFee}
use soldex.Models.BaseFee.Parse.{parse_damm_base_fee}
use soldex.Models.BaseFee.Parse.RoundTrip.{
  InWords, IsLaidOut, write_damm_base_fee, parse-write_damm_base_fee,
}
use soldex.Models.RateLimiter.{rate_limiter_fee}
use soldex.Models.RateLimiter.Chunks.{full_chunks, by_chunks, rate_limiter_fee-eq-by_chunks}
use soldex.Models.PumpPool.{SolanaKeys, PumpPool, pump_pool_discriminator, decode_pump_pool}
use soldex.Models.PumpPool.NoPanic.{NoPanic, decode_pump_pool-NoPanic}
use soldex.Models.PumpFee.{
  PumpGlobalConfig, PumpFeeConfig, PumpFeeTier, decode_pump_global_config, decode_pump_fee_config,
}
use soldex.Models.PumpFee.Decodes.{decode_pump_accounts}
use soldex.Models.PumpFee.Select.{tier_fees}
use soldex.Models.PumpFee.Select.Tiers.{AllAbove, Ascending, IsHighestMet, tier_fees-IsHighestMet}

-- From 1% up by 1% for each chunk of a thousand, to 5%.
abbrev limiter : DammBaseFee
limiter = record {
  cliff_fee_numerator = 10_000_000;
  mode = 2;
  number_of_period = 0;
  reduction_factor = 0;
  period_frequency = 0;
  sqrt_price_step_bps = 0;
  scheduler_expiration_duration = 0;
  fee_increment_bps = 100;
  max_limiter_duration = 3600;
  max_fee_bps = 500;
  reference_amount = 1000;
}

rate_limiter_fee-eq-by_chunks_example : rate_limiter_fee limiter 7500 ≡ ok 275
unfolding by_chunks full_chunks ceil_div
rate_limiter_fee-eq-by_chunks_example =
    rate_limiter_fee-eq-by_chunks limiter 7500 refl (omega arith) (omega arith) (omega arith)

limiter-InWords : InWords limiter
limiter-InWords = record {
  cliff = omega arith;
  mode = omega arith;
  periods = omega arith;
  reduction = omega arith;
  frequency = omega arith;
  step = omega arith;
  expiration = omega arith;
  increment = omega arith;
  duration = omega arith;
  cap = omega arith;
  reference = omega arith;
}

limiter-IsLaidOut : IsLaidOut limiter
limiter-IsLaidOut = record {
  limiter = λ h. absurd (ground arith);
  mcap = λ h. (refl, refl);
  scheduler = λ h. (refl, refl);
  time = λ h. refl;
}

parse-write_damm_base_fee_example : parse_damm_base_fee (write_damm_base_fee limiter) ≡ limiter
parse-write_damm_base_fee_example =
    parse-write_damm_base_fee limiter limiter-InWords limiter-IsLaidOut

-- Keys by their first byte.
abbrev first_byte : List ℕ → ℕ
first_byte [] = 0
first_byte (byte ∷ bytes) = byte

abbrev keys : SolanaKeys
keys = record {
  PublicKey = ℕ;
  zero_key = 0;
  from_bytes = first_byte;
  is_zero = λ k. k == 0;
  equals = λ k l. k == l;
  wsol_mint = 1;
  usdc_mint = 2;
  usdt_mint = 3;
  pool_authority = λ k. some (k + 100);
}

abbrev pool : PumpPool keys
pool = record {
  address = 9;
  base_mint = 5;
  quote_mint = 1;
  pool_base_token_account = 10;
  pool_quote_token_account = 11;
  coin_creator = 12;
  creator = 105;
  is_cashback_coin = false;
  virtual_quote_reserves = negsuc 299;
  creator_fee_bps = 0;
  can_edit_creator_fee = false;
  is_holder_reward = false;
}

abbrev zeros : ℕ → List ℕ
zeros zero = []
zeros (suc n) = 0 ∷ zeros n

decode_pump_pool-NoPanic_example :
    NoPanic (decode_pump_pool keys (pump_pool_discriminator ++ zeros 260) 9)
decode_pump_pool-NoPanic_example =
    decode_pump_pool-NoPanic keys (pump_pool_discriminator ++ zeros 260) 9

decode_pump_accounts_example :
    (((length (zeros 330) < 321) × (decode_pump_global_config (zeros 330) ≡ err insufficient_data))
      ⊎ ((321 ≤ length (zeros 330))
          × (g : PumpGlobalConfig) × (decode_pump_global_config (zeros 330) ≡ ok g)))
    × (((length (zeros 330) < 69) × (decode_pump_fee_config (zeros 330) ≡ err insufficient_data))
        ⊎ ((69 ≤ length (zeros 330))
            × (c : PumpFeeConfig) × (decode_pump_fee_config (zeros 330) ≡ ok c)
            × (length c.tiers ≤ 64)
            × (length c.stable_tiers ≤ 64)))
decode_pump_accounts_example = decode_pump_accounts (zeros 330)

abbrev tier_at : (threshold lp : ℕ) → PumpFeeTier
tier_at threshold lp = record {
  market_cap_threshold = threshold;
  fees = record { lp_bps = lp; protocol_bps = 93; creator_bps = 30 };
}

abbrev tiers : List PumpFeeTier
tiers = tier_at 0 2 ∷ tier_at 420 20 ∷ tier_at 1470 25 ∷ []

tiers-Ascending : Ascending 0 tiers
unfolding Ascending
tiers-Ascending = (omega arith, (omega arith, (omega arith, tt)))

tier_fees-IsHighestMet_example :
    (AllAbove 500 tiers × (tier_fees tiers 500 ≡ (tier_at 0 2).fees))
    ⊎ IsHighestMet tiers 500 (tier_fees tiers 500)
tier_fees-IsHighestMet_example =
    tier_fees-IsHighestMet (tier_at 0 2) (tier_at 420 20 ∷ tier_at 1470 25 ∷ []) 500 tiers-Ascending

-- Of tiers that are not sorted, the first is taken although the cap meets the second.
unsorted_first : tier_fees (tier_at 1000 2 ∷ tier_at 420 20 ∷ []) 500 ≡ (tier_at 1000 2).fees
unfolding tier_fees
unsorted_first = refl
