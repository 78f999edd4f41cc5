-- ===== src/Tests/Models.antt =====
-- models at concrete inputs.
use soldex.Base.{refl, arith}
use soldex.Models.BaseFee.{DammBaseFee}
use soldex.Models.BaseFee.Falls.{Falls, current_base_fee_numerator-Falls}

-- From 50% down by 1% in each of 40 periods of a minute.
abbrev schedule : DammBaseFee
schedule = record {
  cliff_fee_numerator = 500_000_000;
  mode = 0;
  number_of_period = 40;
  reduction_factor = 10_000_000;
  period_frequency = 60;
  sqrt_price_step_bps = 0;
  scheduler_expiration_duration = 0;
  fee_increment_bps = 0;
  max_limiter_duration = 0;
  max_fee_bps = 0;
  reference_amount = 0;
}

current_base_fee_numerator-Falls_example : Falls schedule 130 10_000 100
current_base_fee_numerator-Falls_example =
    current_base_fee_numerator-Falls schedule 130 10_000 100 refl (omega arith)
