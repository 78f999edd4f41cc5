-- ===== src/Models/BaseFee/Parse.antt =====
-- models/damm_base_fee.go: the parser of the blob of a base fee.
pub mod RoundTrip
use soldex.Base.{
  ℕ, zero, suc, ◌+◌, ◌-◌, ◌*◌, ◌/◌, ◌%◌, ◌^◌, ◌≤◌, ◌<◌, ◌≡◌, ◌≢◌, refl, sym, ap, ◌∙◌, ◌↔◌, ◌⊎◌, inl,
  inr, arith, Bool, true, false, not, ◌&&◌, ◌||◌, Option, none, some, List, [], ◌∷◌, ◌++◌, ltb, leb,
  ◌==◌, if◌then◌else◌, Result, ok, err, ◌>>=◌, ◌>>◌, Error, math_overflow, divide_by_zero,
  negative_value, type_cast_failed, fail_if, zero_output, unsupported_curve, unknown_creator_fee_on,
  invalid_pool, amount_overflow, negative_liquidity, swap_disabled, insufficient_data, panicked,
  insufficient_liquidity, price_range_violation, compounding_pool, >>=-eq-ok, ok-injective,
  Bool-cases, Option-cases, ltb→lt, ltb→le, leb→le, leb→lt, ==→eq, lt→ltb, le→ltb, le→leb,
}
use soldex.Models.Bytes.{take, drop, slice, little_endian, to_bytes, little_endian-to_bytes}
use soldex.Models.BaseFee.{DammBaseFee, rate_limiter}

abbrev pub mcap_linear : ℕ
mcap_linear = 3

abbrev pub mcap_exponential : ℕ
mcap_exponential = 4

-- The fields that every layout has; the others are zero.
unfoldable pub parse_head : List ℕ → DammBaseFee
parse_head b = record {
  cliff_fee_numerator = little_endian (slice 0 8 b);
  mode = little_endian (slice 8 9 b);
  number_of_period = 0;
  reduction_factor = 0;
  period_frequency = 0;
  sqrt_price_step_bps = 0;
  scheduler_expiration_duration = 0;
  fee_increment_bps = 0;
  max_limiter_duration = 0;
  max_fee_bps = 0;
  reference_amount = 0;
}

-- Of a blob of 32 bytes.
unfoldable pub parse_damm_base_fee : List ℕ → DammBaseFee
parse_damm_base_fee b =
    let f = parse_head b in
    if f.mode == rate_limiter
    then record f {
      fee_increment_bps = little_endian (slice 14 16 b);
      max_limiter_duration = little_endian (slice 16 20 b);
      max_fee_bps = little_endian (slice 20 24 b);
      reference_amount = little_endian (slice 24 32 b);
    }
    else if f.mode == mcap_linear || f.mode == mcap_exponential
    then record f {
      number_of_period = little_endian (slice 14 16 b);
      sqrt_price_step_bps = little_endian (slice 16 20 b);
      scheduler_expiration_duration = little_endian (slice 20 24 b);
      reduction_factor = little_endian (slice 24 32 b);
    }
    else record f {
      number_of_period = little_endian (slice 14 16 b);
      period_frequency = little_endian (slice 16 24 b);
      reduction_factor = little_endian (slice 24 32 b);
    }
