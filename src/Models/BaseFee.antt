-- ===== src/Models/BaseFee.antt =====
-- models/damm_base_fee.go and damm_base_fee_schedule.go: the base fee of a DAMM v2 pool at a point in
-- time, and when the rate limiter of damm_rate_limiter.go is in force. The record is as decoded.
pub mod Falls
pub mod Parse
use soldex.Base.{
  ℕ, zero, suc, ◌+◌, ◌-◌, ◌*◌, ◌/◌, ◌%◌, ◌^◌, ◌≤◌, ◌<◌, ◌≡◌, ◌≢◌, refl, sym, ap, ◌∙◌, ◌↔◌, ◌⊎◌, inl,
  inr, arith, Bool, true, false, not, ◌&&◌, ◌||◌, Option, none, some, List, [], ◌∷◌, ◌++◌, ltb, leb,
  ◌==◌, if◌then◌else◌, Result, ok, err, ◌>>=◌, ◌>>◌, Error, math_overflow, divide_by_zero,
  negative_value, type_cast_failed, fail_if, rate_limiter_needs_amount, unsupported_base_fee_mode,
  zero_output, unsupported_curve, unknown_creator_fee_on, insufficient_liquidity,
  price_range_violation, compounding_pool, >>=-eq-ok, ok-injective, Bool-cases, Option-cases,
  ltb→lt, ltb→le, leb→le, leb→lt, ==→eq, lt→ltb, le→ltb, le→leb,
}
use soldex.Math.Damm.Fee.{get_fee_in_period, get_fee_in_period_linear}

abbrev pub time_linear : ℕ
time_linear = 0

abbrev pub time_exponential : ℕ
time_exponential = 1

abbrev pub rate_limiter : ℕ
rate_limiter = 2

pub record DammBaseFee : Type 0 where
  pub cliff_fee_numerator : ℕ
  pub mode : ℕ
  pub number_of_period : ℕ
  pub reduction_factor : ℕ
  pub period_frequency : ℕ
  pub sqrt_price_step_bps : ℕ
  pub scheduler_expiration_duration : ℕ
  pub fee_increment_bps : ℕ
  pub max_limiter_duration : ℕ
  pub max_fee_bps : ℕ
  pub reference_amount : ℕ

-- `case DAMMBaseFeeModeTimeLinear, DAMMBaseFeeModeTimeExponential`
abbrev pub is_time_mode : DammBaseFee → Bool
is_time_mode f = f.mode == time_linear || f.mode == time_exponential

unfoldable pub is_static : DammBaseFee → Bool
is_static f =
    is_time_mode f
    && (f.period_frequency == 0 || f.number_of_period == 0 || f.reduction_factor == 0)

unfoldable pub time_scheduler_period : DammBaseFee → (current_point activation_point : ℕ) → ℕ
time_scheduler_period f current_point activation_point =
    let elapsed = (current_point - activation_point) / f.period_frequency in
    if leb current_point activation_point || f.period_frequency == 0
    then 0
    else if leb f.number_of_period elapsed
    then f.number_of_period
    else elapsed

-- The fee of a time scheduler that moves.
unfoldable pub scheduled_fee : DammBaseFee → ℕ → Result ℕ
scheduled_fee f period =
    if f.mode == time_linear
    then ok (get_fee_in_period_linear f.cliff_fee_numerator f.reduction_factor period)
    else get_fee_in_period f.cliff_fee_numerator f.reduction_factor period

unfoldable pub current_base_fee_numerator :
    DammBaseFee → (current_point activation_point : ℕ) → Result ℕ
current_base_fee_numerator f current_point activation_point =
    if is_time_mode f
    then (if is_static f
        then ok f.cliff_fee_numerator
        else scheduled_fee f (time_scheduler_period f current_point activation_point))
    else if f.mode == rate_limiter
    then err rate_limiter_needs_amount
    else err unsupported_base_fee_mode

unfoldable pub rate_limiter_applies :
    DammBaseFee → (current_point activation_point : ℕ) → Bool → Bool
rate_limiter_applies f current_point activation_point is_b_to_a =
    if not (f.mode == rate_limiter) || not is_b_to_a
    then false
    else if f.reference_amount == 0 || f.max_limiter_duration == 0
    then false
    else if ltb current_point activation_point
    then false
    else leb (current_point - activation_point) f.max_limiter_duration
