-- ===== src/Models/BaseFee/Falls.antt =====
-- models/damm_base_fee_schedule.go: a linear schedule only ever lowers the fee, and by no more than it
-- is configured to.
use soldex.Base.{
  ℕ, ◌+◌, ◌-◌, ◌*◌, ◌/◌, ◌≤◌, ◌<◌, ◌≡◌, refl, inl, inr, arith, true, false, ◌==◌, ok, Bool-cases,
}
use native.Mathlib.Nat.{mul-le-mul_left}
use soldex.Base.Division.{le-div, div_bounds}
use soldex.Math.Damm.Fee.{get_fee_in_period_linear}
use soldex.Models.BaseFee.{
  DammBaseFee, time_linear, is_static, time_scheduler_period, scheduled_fee,
  current_base_fee_numerator,
}

elapsed_mono : (m n d : ℕ) → 0 < d → m ≤ n → m / d ≤ n / d
elapsed_mono m n d h k = le-div n d (m / d) h (omega (arith, (div_bounds m d h).0))

period_bounds : (f : DammBaseFee) (now at : ℕ) → time_scheduler_period f now at ≤ f.number_of_period
unfolding time_scheduler_period
period_bounds f now at = ground arith

period_mono :
    (f : DammBaseFee) (now later at : ℕ)
    → now ≤ later
    → time_scheduler_period f now at ≤ time_scheduler_period f later at
unfolding time_scheduler_period
period_mono f now later at h = elim (Bool-cases (f.period_frequency == 0)) [
  | inl never ↦ rw never (ground arith)
  | inr moves ↦
      let mono =
        elapsed_mono (now - at) (later - at) f.period_frequency (ground arith) (omega arith) in
      ground arith
]

linear_bounds :
    (c r p p' n : ℕ)
    → p ≤ p'
    → p' ≤ n
    → (get_fee_in_period_linear c r p' ≤ get_fee_in_period_linear c r p)
      × (get_fee_in_period_linear c r p ≤ c)
      × (c ≤ get_fee_in_period_linear c r p' + r * n)
unfolding get_fee_in_period_linear
linear_bounds c r p p' n h k =
    let more = mul-le-mul_left r h in let most = mul-le-mul_left r k in ground arith

-- What a linear schedule charges at a point and later.
pub record Falls (f : DammBaseFee) (now later activation_point : ℕ) : Type 0 where
  pub first : ℕ
  pub second : ℕ
  pub first_charged : current_base_fee_numerator f now activation_point ≡ ok first
  pub second_charged : current_base_fee_numerator f later activation_point ≡ ok second
  pub falls : second ≤ first
  pub cliff : first ≤ f.cliff_fee_numerator
  pub floor : f.cliff_fee_numerator ≤ second + f.reduction_factor * f.number_of_period

moving_fee :
    (f : DammBaseFee) (now at : ℕ)
    → f.mode ≡ time_linear
    → is_static f ≡ false
    → current_base_fee_numerator f now at
      ≡ ok (
          get_fee_in_period_linear f.cliff_fee_numerator f.reduction_factor
            (time_scheduler_period f now at))
unfolding current_base_fee_numerator scheduled_fee
moving_fee f now at h k = rw (k, h) refl

static_fee :
    (f : DammBaseFee) (now at : ℕ)
    → f.mode ≡ time_linear
    → is_static f ≡ true
    → current_base_fee_numerator f now at ≡ ok f.cliff_fee_numerator
unfolding current_base_fee_numerator
static_fee f now at h k = rw (k, h) refl

-- A linear schedule always has a base fee; a later point never has a larger one; and it stays between
-- the cliff and the cliff less the reduction of all its periods.
pub current_base_fee_numerator-Falls :
    (f : DammBaseFee) (now later activation_point : ℕ)
    → f.mode ≡ time_linear
    → now ≤ later
    → Falls f now later activation_point
current_base_fee_numerator-Falls f now later at h le = elim (Bool-cases (is_static f)) [
  | inl still ↦ record {
    first = f.cliff_fee_numerator;
    second = f.cliff_fee_numerator;
    first_charged = static_fee f now at h still;
    second_charged = static_fee f later at h still;
    falls = omega arith;
    cliff = omega arith;
    floor = omega arith;
  }
  | inr moves ↦
      let c = f.cliff_fee_numerator in
      let r = f.reduction_factor in
      let p = time_scheduler_period f now at in
      let p' = time_scheduler_period f later at in
      let (falls, cliff, floor) =
        linear_bounds c r p p' f.number_of_period (period_mono f now later at le)
          (period_bounds f later at) in
      record {
        first = get_fee_in_period_linear c r p;
        second = get_fee_in_period_linear c r p';
        first_charged = moving_fee f now at h moves;
        second_charged = moving_fee f later at h moves;
        falls = falls;
        cliff = cliff;
        floor = floor;
      }
]
