-- ===== src/Models/RateLimiter.antt =====
-- models/damm_rate_limiter.go: the fee that rises with the size of the swap.
-- Every big.Int of `RateLimiterFee` is a natural number, since the cap is above the cliff where it is
-- subtracted.
pub mod Chunks
use soldex.Base.{
  ℕ, ◌+◌, ◌-◌, ◌*◌, ◌/◌, ◌%◌, Bool, true, false, ◌||◌, not, ltb, leb, ◌==◌, if◌then◌else◌, Result,
  ok, err, not_rate_limiter, value_out_of_range,
}
use soldex.Base.Words.{max_u64}
use soldex.Models.BaseFee.{DammBaseFee, rate_limiter}

abbrev pub damm_fee_denominator : ℕ
damm_fee_denominator = 1_000_000_000

abbrev pub bps_to_fee_numerator : ℕ
bps_to_fee_numerator = 100_000

abbrev pub increment : DammBaseFee → ℕ
increment f = f.fee_increment_bps * bps_to_fee_numerator

abbrev pub max_fee : DammBaseFee → ℕ
max_fee f = f.max_fee_bps * bps_to_fee_numerator

-- The rates of the chunks 0 to `n`, summed.
unfoldable pub chunk_sum : (cliff incr n : ℕ) → ℕ
chunk_sum cliff incr n = (cliff + cliff * n) + n * (n + 1) / 2 * incr

-- The branch of an input above the reference amount.
unfoldable pub climbing_total : (cliff reference incr cap input : ℕ) → ℕ
climbing_total cliff reference incr cap input =
    let a = (input - reference) / reference in
    let b = (input - reference) % reference in
    let max_index = (cap - cliff) / incr in
    if ltb a max_index
    then reference * chunk_sum cliff incr a + b * (cliff + incr * (a + 1))
    else reference * chunk_sum cliff incr max_index + ((a - max_index) * reference + b) * cap

-- The product that is divided at the end; the tests are those that charge the flat cliff fee.
unfoldable pub limiter_total : DammBaseFee → (input : ℕ) → ℕ
limiter_total f input =
    if f.reference_amount == 0 || increment f == 0 || leb (max_fee f) f.cliff_fee_numerator
    then input * f.cliff_fee_numerator
    else if leb input f.reference_amount
    then input * f.cliff_fee_numerator
    else climbing_total f.cliff_fee_numerator f.reference_amount (increment f) (max_fee f) input

unfoldable pub ceil_div_fee_denominator : ℕ → Result ℕ
ceil_div_fee_denominator n =
    let q = n / damm_fee_denominator in
    let up = if (n % damm_fee_denominator) == 0 then q else q + 1 in
    if ltb max_u64 up then err value_out_of_range else ok up

unfoldable pub rate_limiter_fee : DammBaseFee → (input_amount : ℕ) → Result ℕ
rate_limiter_fee f input_amount =
    if f.mode == rate_limiter
    then ceil_div_fee_denominator (limiter_total f input_amount)
    else err not_rate_limiter
