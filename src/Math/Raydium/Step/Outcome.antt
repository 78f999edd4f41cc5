-- ===== src/Math/Raydium/Step/Outcome.antt =====
-- math/raydium/swap_math.go: what a step is to do, said of the curve.
use soldex.Base.{
  ℕ, ◌+◌, ◌-◌, ◌*◌, ◌/◌, ◌≤◌, ◌<◌, ◌≡◌, ◌≢◌, ◌⊎◌, Bool, true, ◌||◌, ◌==◌, if◌then◌else◌, ok,
}
use soldex.Math.Common.{nat}
use soldex.Base.Division.{ceil_div}
use soldex.Math.Orca.Curve.{next_sqrt_price}
use soldex.Math.Raydium.Step.{SwapStep, fee_rate_denominator}
use soldex.Math.Raydium.Step.Amounts.{delta_in, delta_out}

-- What of the remaining input moves the price: all of it, or what a fee on the input leaves.
abbrev pub usable : (remaining rate : ℕ) → Bool → ℕ
usable remaining rate on_input =
    if on_input then remaining * (fee_rate_denominator - rate) / fee_rate_denominator else remaining

-- The price where a step ends: the target, where the usable input covers the amount to it, and
-- otherwise the price that the usable input moves to, before the target.
abbrev pub EndsAt : (current target liquidity amount : ℕ) → Bool → (next : ℕ) → Type 0
EndsAt current target liquidity amount z next =
    ((next ≡ target) × (delta_in current target liquidity z ≤ amount))
    ⊎ ((next ≢ target)
        × (amount < delta_in current target liquidity z)
        × (next_sqrt_price current liquidity amount true z ≡ ok next))

-- The input of a step: that of the curve, but all of the remaining input where the fee is on the output
-- and the step stops before the target.
abbrev pub input_of : (curve_in remaining : ℕ) (on_input at_target : Bool) → ℕ
input_of curve_in remaining on_input at_target =
    if on_input || at_target then curve_in else remaining

-- The fee of a step: of the output, or on the input, where a step that stops before the target charges
-- all that the input leaves.
abbrev pub fee_of : (amount_in curve_out remaining rate : ℕ) (on_input at_target : Bool) → ℕ
fee_of amount_in curve_out remaining rate on_input at_target =
    if on_input
    then if at_target
      then ceil_div (amount_in * rate) (fee_rate_denominator - rate)
      else remaining - amount_in
    else ceil_div (curve_out * rate) fee_rate_denominator

-- A step from `current` toward `target`, of a remaining input.
pub record Draws (current target liquidity remaining rate : ℕ) (zero_for_one on_input : Bool)
    (s : SwapStep) : Type 0 where
  pub amount_in : ℕ
  pub amount_out : ℕ
  pub fee : ℕ
  pub in_eq : s.amount_in ≡ nat amount_in
  pub out_eq : s.amount_out ≡ nat amount_out
  pub fee_eq : s.fee_amount ≡ nat fee
  pub positive : 0 < s.sqrt_price_next
  pub moved :
      EndsAt current target liquidity
        (usable remaining rate on_input)
        zero_for_one
        s.sqrt_price_next
  pub drawn : amount_in + (if on_input then fee else 0) ≤ remaining
  pub paid :
      amount_in
      ≡ input_of
          (delta_in current s.sqrt_price_next liquidity zero_for_one)
          remaining
          on_input
          (s.sqrt_price_next == target)
  pub charged :
      fee
      ≡ fee_of amount_in
          (delta_out current s.sqrt_price_next liquidity zero_for_one)
          remaining
          rate
          on_input
          (s.sqrt_price_next == target)
  pub given :
      amount_out + (if on_input then 0 else fee)
      ≡ delta_out current s.sqrt_price_next liquidity zero_for_one
  pub covered : delta_in current s.sqrt_price_next liquidity zero_for_one ≤ amount_in
  pub ends : (s.sqrt_price_next ≡ target) ⊎ (amount_in + (if on_input then fee else 0) ≡ remaining)
