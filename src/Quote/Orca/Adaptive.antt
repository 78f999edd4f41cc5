-- ===== src/Quote/Orca/Adaptive.antt =====
-- quote/orca/adaptive_fee.go: the fee that rises with the distance, in tick groups, from a reference.
pub mod Bounds
use soldex.Base.{
  ℕ, zero, suc, ◌+◌, ◌-◌, ◌*◌, ◌/◌, ◌%◌, ◌^◌, ◌≤◌, ◌<◌, ◌≡◌, ◌≢◌, refl, sym, ap, ◌∙◌, ◌↔◌, ◌⊎◌, inl,
  inr, arith, Bool, true, false, not, ◌&&◌, ◌||◌, Option, none, some, List, [], ◌∷◌, ◌++◌, ltb, leb,
  ◌==◌, if◌then◌else◌, Result, ok, err, ◌>>=◌, ◌>>◌, Error, math_overflow, divide_by_zero,
  negative_value, type_cast_failed, fail_if, zero_output, unsupported_curve, unknown_creator_fee_on,
  invalid_pool, amount_overflow, negative_liquidity, swap_disabled, insufficient_data,
  invalid_discriminator, panicked, insufficient_liquidity, price_range_violation, compounding_pool,
  >>=-eq-ok, ok-injective, Bool-cases, Option-cases, ltb→lt, ltb→le, leb→le, leb→lt, ==→eq, lt→ltb,
  le→ltb, le→leb,
}
use soldex.Base.Int.{ℤ, pos, ◌-ℤ◌, nat_abs, ltb_ℤ, quot, rem_abs, wrap_i32}
use soldex.Base.Words.{u32_mod}

abbrev pub volatility_accumulator_scale_factor : ℕ
volatility_accumulator_scale_factor = 10_000

abbrev pub reduction_factor_denominator : ℕ
reduction_factor_denominator = 10_000

abbrev pub adaptive_fee_control_factor_denominator : ℕ
adaptive_fee_control_factor_denominator = 100_000

abbrev pub max_reference_age : ℕ
max_reference_age = 3_600

abbrev pub fee_rate_hard_limit : ℕ
fee_rate_hard_limit = 100_000

-- All fields are unsigned words.
pub record AdaptiveFeeConstants : Type 0 where
  pub filter_period : ℕ
  pub decay_period : ℕ
  pub reduction_factor : ℕ
  pub adaptive_fee_control_factor : ℕ
  pub max_volatility_accumulator : ℕ
  pub tick_group_size : ℕ
  pub major_swap_threshold_ticks : ℕ

-- The reference index is an int32, the other fields are unsigned words.
pub record AdaptiveFeeVariables : Type 0 where
  pub last_reference_update_timestamp : ℕ
  pub last_major_swap_timestamp : ℕ
  pub volatility_reference : ℕ
  pub tick_group_index_reference : ℤ
  pub volatility_accumulator : ℕ

pub record AdaptiveFeeInfo : Type 0 where
  pub constants : AdaptiveFeeConstants
  pub variables : AdaptiveFeeVariables

-- The divisor comes from a uint16; the remainder by zero panics.
unfoldable pub floor_division : (dividend : ℤ) → (divisor : ℕ) → Result ℤ
floor_division dividend divisor =
    let quotient = quot dividend divisor in
    if divisor == 0
    then err panicked
    else if rem_abs dividend divisor == 0 || not (ltb_ℤ dividend (pos 0))
    then ok quotient
    else ok (wrap_i32 (quotient -ℤ pos 1))

-- For a divisor that is not zero.
unfoldable pub ceil_division_u32 : (dividend divisor : ℕ) → ℕ
ceil_division_u32 dividend divisor =
    let q = dividend / divisor in if q * divisor == dividend then q else q + 1

-- A reference that is set again.
unfoldable pub move_reference :
    AdaptiveFeeVariables
    → (tick_group_index : ℤ) → (volatility timestamp : ℕ) → AdaptiveFeeVariables
move_reference v tick_group_index volatility timestamp = record v {
  tick_group_index_reference = tick_group_index;
  volatility_reference = volatility;
  last_reference_update_timestamp = timestamp;
}

unfoldable pub last_timestamp : AdaptiveFeeVariables → ℕ
last_timestamp v =
    if ltb v.last_reference_update_timestamp v.last_major_swap_timestamp
    then v.last_major_swap_timestamp
    else v.last_reference_update_timestamp

unfoldable pub decayed_volatility : AdaptiveFeeVariables → AdaptiveFeeConstants → ℕ
decayed_volatility v c =
    v.volatility_accumulator * c.reduction_factor / reduction_factor_denominator % u32_mod

-- `none` for a timestamp out of order.
unfoldable pub update_reference :
    AdaptiveFeeVariables → ℤ → ℕ → AdaptiveFeeConstants → Option AdaptiveFeeVariables
update_reference v tick_group_index timestamp c =
    let latest = last_timestamp v in
    let elapsed = timestamp - latest in
    if ltb timestamp latest
    then none
    else if ltb max_reference_age (timestamp - v.last_reference_update_timestamp)
    then some (move_reference v tick_group_index 0 timestamp)
    else if ltb elapsed c.filter_period
    then some v
    else if ltb elapsed c.decay_period
    then some (move_reference v tick_group_index (decayed_volatility v c) timestamp)
    else some (move_reference v tick_group_index 0 timestamp)

-- `uint32` of an int32 that is negated where it is negative: the magnitude, also of the least int32.
unfoldable pub group_distance : (reference tick_group_index : ℤ) → ℕ
group_distance reference tick_group_index = nat_abs (wrap_i32 (reference -ℤ tick_group_index))

unfoldable pub update_volatility_accumulator :
    AdaptiveFeeVariables → ℤ → AdaptiveFeeConstants → AdaptiveFeeVariables
update_volatility_accumulator v tick_group_index c =
    let acc =
      v.volatility_reference
      + group_distance v.tick_group_index_reference tick_group_index
        * volatility_accumulator_scale_factor in
    let max = c.max_volatility_accumulator in
    record v { volatility_accumulator = if ltb max acc then max else acc }

unfoldable pub compute_adaptive_fee_rate : AdaptiveFeeConstants → AdaptiveFeeVariables → ℕ
compute_adaptive_fee_rate c v =
    let crossed = v.volatility_accumulator * c.tick_group_size in
    let num = c.adaptive_fee_control_factor * (crossed * crossed) in
    let denom =
      adaptive_fee_control_factor_denominator * volatility_accumulator_scale_factor
      * volatility_accumulator_scale_factor in
    let q = num / denom in
    let rate = if q * denom == num then q else q + 1 in
    if ltb fee_rate_hard_limit rate then fee_rate_hard_limit else rate
