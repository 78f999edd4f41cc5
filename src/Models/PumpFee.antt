-- ===== src/Models/PumpFee.antt =====
-- models/pump_fee.go: the accounts that hold the fee schedules of Pump-AMM pools. An account is a list of
-- bytes, and an access past its end panics.
pub mod Select
pub mod Decodes
use soldex.Base.{
  ℕ, zero, suc, ◌+◌, ◌-◌, ◌*◌, ◌/◌, ◌%◌, ◌^◌, ◌≤◌, ◌<◌, ◌≡◌, ◌≢◌, refl, sym, ap, ◌∙◌, ◌↔◌, ◌⊎◌, inl,
  inr, arith, Bool, true, false, not, ◌&&◌, ◌||◌, Option, none, some, List, [], ◌∷◌, ◌++◌, ltb, leb,
  ◌==◌, if◌then◌else◌, Result, ok, err, ◌>>=◌, ◌>>◌, Error, math_overflow, divide_by_zero,
  negative_value, type_cast_failed, fail_if, zero_output, unsupported_curve, unknown_creator_fee_on,
  invalid_pool, amount_overflow, negative_liquidity, swap_disabled, insufficient_data,
  invalid_discriminator, panicked, insufficient_liquidity, price_range_violation, compounding_pool,
  >>=-eq-ok, ok-injective, Bool-cases, Option-cases, ltb→lt, ltb→le, leb→le, leb→lt, ==→eq, lt→ltb,
  le→ltb, le→leb,
}
use soldex.Base.Int.{ℤ, pos}
use soldex.Base.Words.{u64_mod, add_wrap}
use soldex.Models.Bytes.{length, range, word, flag}

pub record PumpFees : Type 0 where
  pub lp_bps : ℕ
  pub protocol_bps : ℕ
  pub creator_bps : ℕ

pub record PumpGlobalConfig : Type 0 where
  pub lp_bps : ℕ
  pub protocol_bps : ℕ
  pub coin_creator_bps : ℕ
  pub creator_fee_configurable : Bool
  pub max_configurable_creator_fee_bps : ℕ

pub record PumpFeeTier : Type 0 where
  pub market_cap_threshold : ℕ
  pub fees : PumpFees

pub record PumpFeeConfig : Type 0 where
  pub flat : PumpFees
  pub tiers : List PumpFeeTier
  pub stable_tiers : List PumpFeeTier
  pub exotic_flat : PumpFees

abbrev pub pump_global_config_creator_fee_end : ℕ
pump_global_config_creator_fee_end = 949

-- The override of the grown account; a shorter one reads as zero.
unfoldable pub creator_override : List ℕ → Result (Bool × ℕ)
creator_override bytes =
    if leb pump_global_config_creator_fee_end (length bytes)
    then (do configurable ← flag 940 bytes; max ← word 941 949 bytes; ok (configurable, max))
    else ok (false, 0)

unfoldable pub decode_pump_global_config : List ℕ → Result PumpGlobalConfig
decode_pump_global_config bytes = if ltb (length bytes) 321 then err insufficient_data else (do
  lp ← word 40 48 bytes
  protocol ← word 48 56 bytes
  coin_creator ← word 313 321 bytes
  (configurable, max) ← creator_override bytes
  ok (record {
    lp_bps = lp;
    protocol_bps = protocol;
    coin_creator_bps = coin_creator;
    creator_fee_configurable = configurable;
    max_configurable_creator_fee_bps = max;
  }))

abbrev pub pump_stable_tiers_offset : ℕ
pump_stable_tiers_offset = 1069

abbrev pub pump_exotic_flat_offset : ℕ
pump_exotic_flat_offset = 2073

abbrev pub pump_tier_entry_len : ℕ
pump_tier_entry_len = 40

abbrev pub pump_max_tiers : ℕ
pump_max_tiers = 64

abbrev pub no_fees : PumpFees
no_fees = record { lp_bps = 0; protocol_bps = 0; creator_bps = 0 }

unfoldable pub decode_pump_fees : List ℕ → ℕ → Result PumpFees
decode_pump_fees bytes o = do
  lp ← word o (o + 8) bytes
  protocol ← word (o + 8) (o + 16) bytes
  creator ← word (o + 16) (o + 24) bytes
  ok (record { lp_bps = lp; protocol_bps = protocol; creator_bps = creator })

-- The u128 of the reversed bytes is the little-endian one of the bytes.
unfoldable pub decode_tier : List ℕ → ℕ → Result PumpFeeTier
decode_tier bytes o = do
  threshold ← word o (o + 16) bytes
  fees ← decode_pump_fees bytes (o + 16)
  ok (record { market_cap_threshold = threshold; fees = fees })

-- The entries from an offset on, up to the first that the account is too short for.
unfoldable pub decode_tiers : (count : ℕ) → List ℕ → ℕ → Result (List PumpFeeTier)
decode_tiers zero bytes o = ok []
decode_tiers (suc count) bytes o =
    if ltb (length bytes) (o + pump_tier_entry_len) then ok [] else (do
      tier ← decode_tier bytes o
      tiers ← decode_tiers count bytes (o + pump_tier_entry_len)
      ok (tier ∷ tiers))

unfoldable pub decode_pump_tier_vec : List ℕ → ℕ → Result (List PumpFeeTier)
decode_pump_tier_vec bytes off = if ltb (length bytes) (off + 4) then ok [] else (do
  n ← word off (off + 4) bytes
  decode_tiers (if ltb pump_max_tiers n then pump_max_tiers else n) bytes (off + 4))

unfoldable pub decode_exotic_flat : List ℕ → Result PumpFees
decode_exotic_flat bytes =
    if leb (pump_exotic_flat_offset + 24) (length bytes)
    then decode_pump_fees bytes pump_exotic_flat_offset
    else ok no_fees

unfoldable pub decode_pump_fee_config : List ℕ → Result PumpFeeConfig
decode_pump_fee_config bytes = if ltb (length bytes) 69 then err insufficient_data else (do
  flat ← decode_pump_fees bytes 41
  tiers ← decode_pump_tier_vec bytes 65
  stable_tiers ← decode_pump_tier_vec bytes pump_stable_tiers_offset
  exotic_flat ← decode_exotic_flat bytes
  ok (record {
    flat = flat;
    tiers = tiers;
    stable_tiers = stable_tiers;
    exotic_flat = exotic_flat;
  }))
