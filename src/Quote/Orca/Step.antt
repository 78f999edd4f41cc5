-- ===== src/Quote/Orca/Step.antt =====
-- quote/orca/swap_quote.go: one step of a swap, toward a target price.
pub mod Raydium
pub mod Draws
use soldex.Base.{
  ℕ, zero, suc, ◌+◌, ◌-◌, ◌*◌, ◌/◌, ◌%◌, ◌^◌, ◌≤◌, ◌<◌, ◌≡◌, ◌≢◌, refl, sym, ap, ◌∙◌, ◌↔◌, ◌⊎◌, inl,
  inr, arith, Bool, true, false, not, ◌&&◌, ◌||◌, Option, none, some, List, [], ◌∷◌, ◌++◌, ltb, leb,
  ◌==◌, if◌then◌else◌, Result, ok, err, ◌>>=◌, ◌>>◌, Error, math_overflow, divide_by_zero,
  negative_value, type_cast_failed, fail_if, zero_output, unsupported_curve, unknown_creator_fee_on,
  invalid_pool, amount_overflow, negative_liquidity, swap_disabled, insufficient_data,
  invalid_discriminator, panicked, insufficient_liquidity, price_range_violation, compounding_pool,
  >>=-eq-ok, ok-injective, Bool-cases, Option-cases, ltb→lt, ltb→le, leb→le, leb→lt, ==→eq, lt→ltb,
  le→ltb, le→leb,
}
use soldex.Base.Int.{ℤ, pos, negsuc}
use soldex.Base.Words.{max_u64, sub_wrap}
use soldex.Math.Common.{nat, div_ceil}
use soldex.Math.Orca.Curve.{get_delta_amount_a, get_delta_amount_b, next_sqrt_price}

abbrev pub fee_rate_mul_value : ℕ
fee_rate_mul_value = 1_000_000

pub record SwapStep : Type 0 where
  pub amount_in : ℕ
  pub amount_out : ℕ
  pub fee_amount : ℕ
  pub next_price : ℕ

-- Every amount of the callers is a natural number.
unfoldable pub to_u64 : ℕ → Result ℕ
to_u64 v = if ltb max_u64 v then err amount_overflow else ok v

unfoldable pub fixed_delta : (current target liquidity : ℕ) → Bool → ℕ
fixed_delta current target liquidity a_to_b =
    if a_to_b
    then get_delta_amount_a current target liquidity true
    else get_delta_amount_b current target liquidity true

unfoldable pub unfixed_delta : (current next liquidity : ℕ) → Bool → ℕ
unfixed_delta current next liquidity a_to_b =
    if a_to_b
    then get_delta_amount_b current next liquidity false
    else get_delta_amount_a current next liquidity false

-- The input less the fee. A rate is a uint16 or capped at 100_000, below the value.
unfoldable pub amount_calc : (amount_remaining fee_rate : ℕ) → ℕ
amount_calc amount_remaining fee_rate =
    amount_remaining * (fee_rate_mul_value - fee_rate) / fee_rate_mul_value

unfoldable pub step_fee : (amount_remaining amount_in fixed fee_rate : ℕ) → Bool → Result ℕ
step_fee amount_remaining amount_in fixed fee_rate is_max_swap =
    if not is_max_swap then ok (sub_wrap amount_remaining amount_in) else (do
      fee ← div_ceil (nat (fixed * fee_rate)) (nat (fee_rate_mul_value - fee_rate))
      to_u64 fee)

-- `!exceedsMax && initialFixed.Cmp(amountCalc) <= 0`
unfoldable pub reaches_target : (initial_fixed amount : ℕ) → Bool
reaches_target initial_fixed amount = not (ltb max_u64 initial_fixed) && leb initial_fixed amount

unfoldable pub next_price : (current target liquidity initial_fixed amount : ℕ) → Bool → Result ℕ
next_price current target liquidity initial_fixed amount a_to_b =
    if reaches_target initial_fixed amount
    then ok target
    else next_sqrt_price current liquidity amount true a_to_b

unfoldable pub compute_swap_step :
    (amount_remaining fee_rate liquidity current target : ℕ) → Bool → Result SwapStep
compute_swap_step amount_remaining fee_rate liquidity current target a_to_b = do
  let initial_fixed = fixed_delta current target liquidity a_to_b
  next ←
      next_price current target liquidity initial_fixed (amount_calc amount_remaining fee_rate)
        a_to_b
  let is_max_swap = next == target
  let fixed =
      if not is_max_swap || ltb max_u64 initial_fixed
      then fixed_delta current next liquidity a_to_b
      else initial_fixed
  amount_in ← to_u64 fixed
  amount_out ← to_u64 (unfixed_delta current next liquidity a_to_b)
  fee_amount ← step_fee amount_remaining amount_in fixed fee_rate is_max_swap
  ok (record {
    amount_in = amount_in;
    amount_out = amount_out;
    fee_amount = fee_amount;
    next_price = next;
  })
