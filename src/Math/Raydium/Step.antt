-- ===== src/Math/Raydium/Step.antt =====
-- math/raydium/swap_math.go: one step of a swap, toward a target price.
-- A `*big.Int` of the result is an optional integer; nil is `none`.
pub mod Amounts
pub mod Outcome
pub mod Fees
pub mod Draws
use soldex.Base.{
  ℕ, ◌+◌, ◌-◌, ◌*◌, ◌/◌, ◌%◌, Bool, true, false, Option, none, some, ltb, leb, ◌==◌, if◌then◌else◌,
  Result, ok, err, ◌>>=◌, panicked,
}
use soldex.Base.Int.{ℤ, pos, sub_ℕ}
use soldex.Base.Words.{max_u64, u32_mod, u64_mod}
use soldex.Math.Common.{BigInt, nat}
use soldex.Math.Raydium.Liquidity.{
  ceil_quo, get_delta_amount_0_unsigned, get_delta_amount_1_unsigned,
}
use soldex.Math.Raydium.SqrtPrice.{next_sqrt_price_from_input}

abbrev pub fee_rate_denominator : ℕ
fee_rate_denominator = 1_000_000

pub record SwapStep : Type 0 where
  pub sqrt_price_next : ℕ
  pub amount_in : BigInt
  pub amount_out : BigInt
  pub fee_amount : BigInt

-- `FeeRateDenominator-feeRate` on uint32.
unfoldable pub fee_complement : ℕ → ℕ
fee_complement fee_rate = (fee_rate_denominator + u32_mod - fee_rate) % u32_mod

-- The part of the input that moves the price.
unfoldable pub amount_for_calc : (remaining fee_rate : ℕ) → Bool → ℕ
amount_for_calc remaining fee_rate is_fee_on_input =
    if is_fee_on_input
    then remaining * fee_complement fee_rate / fee_rate_denominator
    else remaining

-- The amount from the current price to another, in the input token and in the output token.
unfoldable pub input_between : (current next liquidity : ℕ) → Bool → Result ℕ
input_between current next liquidity zero_for_one =
    if zero_for_one
    then get_delta_amount_0_unsigned next current liquidity true
    else get_delta_amount_1_unsigned current next liquidity true

unfoldable pub output_between : (current next liquidity : ℕ) → Bool → Result ℕ
output_between current next liquidity zero_for_one =
    if zero_for_one
    then get_delta_amount_1_unsigned next current liquidity false
    else get_delta_amount_0_unsigned current next liquidity false

-- `none` where the amount exceeds a uint64.
unfoldable pub calc_amount_in_to_target : (current target liquidity : ℕ) → Bool → Result (Option ℕ)
calc_amount_in_to_target current target liquidity zero_for_one = do
  v ← input_between current target liquidity zero_for_one
  ok (if ltb max_u64 v then none else some v)

-- `amountToTarget != nil && amountForCalc.Cmp(amountToTarget) >= 0`
unfoldable pub reaches_target : Option ℕ → ℕ → Bool
reaches_target none amount = false
reaches_target (some to_target) amount = leb to_target amount

-- `amountForCalc.Uint64()` takes the low 64 bits.
unfoldable pub next_price : (current target liquidity amount : ℕ) → Bool → Option ℕ → Result ℕ
next_price current target liquidity amount zero_for_one to_target =
    if reaches_target to_target amount
    then ok target
    else next_sqrt_price_from_input current liquidity (amount % u64_mod) zero_for_one

unfoldable pub big_of : Option ℕ → BigInt
big_of none = none
big_of (some n) = nat n

-- The input of the step: the amount to the target where the step ends there.
unfoldable pub step_input :
    (current next liquidity : ℕ) → Bool → Bool → Option ℕ → Result (Option ℕ)
step_input current next liquidity zero_for_one max to_target =
    if max
    then ok to_target
    else (do v ← input_between current next liquidity zero_for_one; ok (some v))

-- The fee on the input, which reads the input through its pointer.
unfoldable pub input_fee : (remaining fee_rate : ℕ) → Bool → Option ℕ → Result ℤ
input_fee remaining fee_rate max none = err panicked
input_fee remaining fee_rate true (some amount_in) = do
  fee ← ceil_quo (amount_in * fee_rate) (fee_complement fee_rate)
  ok (pos fee)
input_fee remaining fee_rate false (some amount_in) = ok (sub_ℕ remaining amount_in)

-- The end of `ComputeSwapStep`, where the fee is taken.
unfoldable pub take_fee :
    (next remaining fee_rate : ℕ) → Bool → Bool → Option ℕ → ℕ → Result SwapStep
take_fee next remaining fee_rate true max amount_in amount_out = do
  fee ← input_fee remaining fee_rate max amount_in
  ok (record {
    sqrt_price_next = next;
    amount_in = big_of amount_in;
    amount_out = nat amount_out;
    fee_amount = some fee;
  })
take_fee next remaining fee_rate false max amount_in amount_out = do
  fee ← ceil_quo (amount_out * fee_rate) fee_rate_denominator
  ok (record {
    sqrt_price_next = next;
    amount_in = if max then big_of amount_in else nat remaining;
    amount_out = some (sub_ℕ amount_out fee);
    fee_amount = nat fee;
  })

unfoldable pub compute_swap_step :
    (sqrt_current sqrt_target liquidity amount_remaining fee_rate : ℕ)
    → Bool
    → Bool
    → Result SwapStep
compute_swap_step sqrt_current sqrt_target liquidity amount_remaining fee_rate zero_for_one
      is_fee_on_input =
    do
      let amount = amount_for_calc amount_remaining fee_rate is_fee_on_input
      to_target ← calc_amount_in_to_target sqrt_current sqrt_target liquidity zero_for_one
      next ← next_price sqrt_current sqrt_target liquidity amount zero_for_one to_target
      let max = sqrt_target == next
      amount_in ← step_input sqrt_current next liquidity zero_for_one max to_target
      amount_out ← output_between sqrt_current next liquidity zero_for_one
      take_fee next amount_remaining fee_rate is_fee_on_input max amount_in amount_out
