-- ===== src/Models/BaseFee/Parse/RoundTrip.antt =====
-- models/damm_base_fee.go: a base fee is read as its blob is written.
use soldex.Base.{
  ℕ, ◌^◌, ◌<◌, ◌≡◌, refl, sym, ap, ◌∙◌, inl, inr, arith, Bool, true, false, ◌||◌, List, ◌++◌, ◌==◌,
  if◌then◌else◌, Bool-cases,
}
use soldex.Models.Bytes.{take, drop, slice, little_endian, to_bytes, little_endian-to_bytes}
use soldex.Models.BaseFee.{DammBaseFee, rate_limiter}
use soldex.Models.BaseFee.Parse.{mcap_linear, mcap_exponential, parse_head, parse_damm_base_fee}

abbrev is_mcap : DammBaseFee → Bool
is_mcap f = f.mode == mcap_linear || f.mode == mcap_exponential

-- The blob of a fee, written out by the layout of its mode.
pub write_head : DammBaseFee → List ℕ
write_head f = to_bytes 8 f.cliff_fee_numerator ++ to_bytes 1 f.mode ++ to_bytes 5 0

pub write_tail : DammBaseFee → List ℕ
write_tail f =
    if f.mode == rate_limiter
    then to_bytes 2 f.fee_increment_bps
      ++ to_bytes 4 f.max_limiter_duration
      ++ to_bytes 4 f.max_fee_bps
      ++ to_bytes 8 f.reference_amount
    else if is_mcap f
    then to_bytes 2 f.number_of_period
      ++ to_bytes 4 f.sqrt_price_step_bps
      ++ to_bytes 4 f.scheduler_expiration_duration
      ++ to_bytes 8 f.reduction_factor
    else to_bytes 2 f.number_of_period
      ++ to_bytes 8 f.period_frequency
      ++ to_bytes 8 f.reduction_factor

-- The fields within their words.
pub record InWords (f : DammBaseFee) : Type 0 where
  pub cliff : f.cliff_fee_numerator < 2 ^ 64
  pub mode : f.mode < 2 ^ 8
  pub periods : f.number_of_period < 2 ^ 16
  pub reduction : f.reduction_factor < 2 ^ 64
  pub frequency : f.period_frequency < 2 ^ 64
  pub step : f.sqrt_price_step_bps < 2 ^ 32
  pub expiration : f.scheduler_expiration_duration < 2 ^ 32
  pub increment : f.fee_increment_bps < 2 ^ 16
  pub duration : f.max_limiter_duration < 2 ^ 32
  pub cap : f.max_fee_bps < 2 ^ 32
  pub reference : f.reference_amount < 2 ^ 64

-- A slice of one piece of a blob.
mode_written :
    (f : DammBaseFee) (tail : List ℕ)
    → InWords f
    → (parse_head (write_head f ++ tail)).mode ≡ f.mode
unfolding parse_head write_head slice take drop to_bytes little_endian
mode_written f tail h = little_endian-to_bytes 1 f.mode (omega (arith, h.mode))

cliff_written :
    (f : DammBaseFee) (tail : List ℕ)
    → InWords f
    → (parse_head (write_head f ++ tail)).cliff_fee_numerator ≡ f.cliff_fee_numerator
unfolding parse_head write_head slice take drop to_bytes little_endian
cliff_written f tail h = little_endian-to_bytes 8 f.cliff_fee_numerator (omega (arith, h.cliff))

-- The fields that the mode of a fee does not have are zero.
pub record IsLaidOut (f : DammBaseFee) : Type 0 where
  pub limiter :
      f.mode == rate_limiter ≡ false
      → (f.fee_increment_bps ≡ 0)
        × (f.max_limiter_duration ≡ 0)
        × (f.max_fee_bps ≡ 0)
        × (f.reference_amount ≡ 0)
  pub mcap : is_mcap f ≡ false → (f.sqrt_price_step_bps ≡ 0) × (f.scheduler_expiration_duration ≡ 0)
  pub scheduler :
      f.mode == rate_limiter ≡ true → (f.number_of_period ≡ 0) × (f.reduction_factor ≡ 0)
  pub time : f.mode == rate_limiter || is_mcap f ≡ true → f.period_frequency ≡ 0

fee_ext :
    (f g : DammBaseFee)
    → f.cliff_fee_numerator ≡ g.cliff_fee_numerator
    → f.mode ≡ g.mode
    → f.number_of_period ≡ g.number_of_period
    → f.reduction_factor ≡ g.reduction_factor
    → f.period_frequency ≡ g.period_frequency
    → f.sqrt_price_step_bps ≡ g.sqrt_price_step_bps
    → f.scheduler_expiration_duration ≡ g.scheduler_expiration_duration
    → f.fee_increment_bps ≡ g.fee_increment_bps
    → f.max_limiter_duration ≡ g.max_limiter_duration
    → f.max_fee_bps ≡ g.max_fee_bps
    → f.reference_amount ≡ g.reference_amount
    → f ≡ g
fee_ext f g e0 e1 e2 e3 e4 e5 e6 e7 e8 e9 e10 = λ i. record {
  cliff_fee_numerator = e0 i;
  mode = e1 i;
  number_of_period = e2 i;
  reduction_factor = e3 i;
  period_frequency = e4 i;
  sqrt_price_step_bps = e5 i;
  scheduler_expiration_duration = e6 i;
  fee_increment_bps = e7 i;
  max_limiter_duration = e8 i;
  max_fee_bps = e9 i;
  reference_amount = e10 i;
}

-- The bytes from 14 on.
abbrev limiter_tail : DammBaseFee → List ℕ
limiter_tail f =
    to_bytes 2 f.fee_increment_bps
    ++ to_bytes 4 f.max_limiter_duration
    ++ to_bytes 4 f.max_fee_bps
    ++ to_bytes 8 f.reference_amount

limiter_read :
    (f : DammBaseFee)
    → InWords f
    → IsLaidOut f
    → f.mode == rate_limiter ≡ true
    → parse_damm_base_fee (write_head f ++ limiter_tail f) ≡ f
unfolding parse_damm_base_fee parse_head write_head slice take drop to_bytes little_endian
limiter_read f h laid test =
    let b = write_head f ++ limiter_tail f in
    let mode = mode_written f (limiter_tail f) h in
    let same : (parse_head b).mode == rate_limiter ≡ true =
      ap (λ m. m == rate_limiter) mode ∙ test in
    let (e₁, e₂) = laid.scheduler test in
    let (e₃, e₄) = laid.mcap (ground arith) in
    let e₅ = laid.time (rw test refl) in
    rw same (
      fee_ext _ f (cliff_written f (limiter_tail f) h) mode (sym e₁) (sym e₂) (sym e₅) (sym e₃)
        (sym e₄) (little_endian-to_bytes 2 f.fee_increment_bps (omega (arith, h.increment)))
        (little_endian-to_bytes 4 f.max_limiter_duration (omega (arith, h.duration)))
        (little_endian-to_bytes 4 f.max_fee_bps (omega (arith, h.cap)))
        (little_endian-to_bytes 8 f.reference_amount (omega (arith, h.reference))))

abbrev mcap_tail : DammBaseFee → List ℕ
mcap_tail f =
    to_bytes 2 f.number_of_period
    ++ to_bytes 4 f.sqrt_price_step_bps
    ++ to_bytes 4 f.scheduler_expiration_duration
    ++ to_bytes 8 f.reduction_factor

mcap_read :
    (f : DammBaseFee)
    → InWords f
    → IsLaidOut f
    → f.mode == rate_limiter ≡ false
    → is_mcap f ≡ true
    → parse_damm_base_fee (write_head f ++ mcap_tail f) ≡ f
unfolding parse_damm_base_fee parse_head write_head slice take drop to_bytes little_endian
mcap_read f h laid test mcap =
    let b = write_head f ++ mcap_tail f in
    let mode = mode_written f (mcap_tail f) h in
    let not_limiter : (parse_head b).mode == rate_limiter ≡ false =
      ap (λ m. m == rate_limiter) mode ∙ test in
    let is_cap : ((parse_head b).mode == mcap_linear || (parse_head b).mode == mcap_exponential)
        ≡ true =
      ap (λ m. m == mcap_linear || m == mcap_exponential) mode ∙ mcap in
    let (e₁, e₂, e₃, e₄) = laid.limiter test in
    let e₅ = laid.time (rw (test, mcap) refl) in
    rw (not_limiter, is_cap)
      (fee_ext _ f (cliff_written f (mcap_tail f) h) mode
        (little_endian-to_bytes 2 f.number_of_period (omega (arith, h.periods)))
        (little_endian-to_bytes 8 f.reduction_factor (omega (arith, h.reduction))) (sym e₅)
        (little_endian-to_bytes 4 f.sqrt_price_step_bps (omega (arith, h.step)))
        (little_endian-to_bytes 4 f.scheduler_expiration_duration (omega (arith, h.expiration)))
        (sym e₁) (sym e₂) (sym e₃) (sym e₄))

abbrev time_tail : DammBaseFee → List ℕ
time_tail f =
    to_bytes 2 f.number_of_period ++ to_bytes 8 f.period_frequency ++ to_bytes 8 f.reduction_factor

time_read :
    (f : DammBaseFee)
    → InWords f
    → IsLaidOut f
    → f.mode == rate_limiter ≡ false
    → is_mcap f ≡ false
    → parse_damm_base_fee (write_head f ++ time_tail f) ≡ f
unfolding parse_damm_base_fee parse_head write_head slice take drop to_bytes little_endian
time_read f h laid test no_mcap =
    let b = write_head f ++ time_tail f in
    let mode = mode_written f (time_tail f) h in
    let not_limiter : (parse_head b).mode == rate_limiter ≡ false =
      ap (λ m. m == rate_limiter) mode ∙ test in
    let no_cap : ((parse_head b).mode == mcap_linear || (parse_head b).mode == mcap_exponential)
        ≡ false =
      ap (λ m. m == mcap_linear || m == mcap_exponential) mode ∙ no_mcap in
    let (e₁, e₂, e₃, e₄) = laid.limiter test in
    let (e₅, e₆) = laid.mcap no_mcap in
    rw (not_limiter, no_cap)
      (fee_ext _ f (cliff_written f (time_tail f) h) mode
        (little_endian-to_bytes 2 f.number_of_period (omega (arith, h.periods)))
        (little_endian-to_bytes 8 f.reduction_factor (omega (arith, h.reduction)))
        (little_endian-to_bytes 8 f.period_frequency (omega (arith, h.frequency))) (sym e₅) (sym e₆)
        (sym e₁) (sym e₂) (sym e₃) (sym e₄))

pub write_damm_base_fee : DammBaseFee → List ℕ
write_damm_base_fee f = write_head f ++ write_tail f

-- A base fee whose fields fit their words and are zero where its mode has no such field is read from
-- the blob that the layout of its mode makes of it, for every mode byte.
pub parse-write_damm_base_fee :
    (f : DammBaseFee) → InWords f → IsLaidOut f → parse_damm_base_fee (write_damm_base_fee f) ≡ f
unfolding write_damm_base_fee write_tail
parse-write_damm_base_fee f h laid = elim (Bool-cases (f.mode == rate_limiter)) [
  | inl limits ↦ rw limits (limiter_read f h laid limits)
  | inr schedules ↦ elim (Bool-cases (is_mcap f)) [
    | inl mcap ↦ rw (schedules, mcap) (mcap_read f h laid schedules mcap)
    | inr time ↦ rw (schedules, time) (time_read f h laid schedules time)
  ]
]
