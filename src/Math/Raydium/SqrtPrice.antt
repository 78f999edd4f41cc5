-- ===== src/Math/Raydium/SqrtPrice.antt =====
-- math/raydium/sqrt_price_math.go: the sqrt price after an input.
-- The two functions for an amount are at `add = true`, the one value that the repository passes.
use soldex.Base.{ℕ, ◌+◌, ◌*◌, ◌^◌, Bool, ◌==◌, if◌then◌else◌, Result, ok, ◌>>=◌}
use soldex.Math.Raydium.Liquidity.{quo, ceil_quo}

unfoldable pub next_sqrt_price_from_amount_0_rounding_up :
    (sqrt_price liquidity amount : ℕ) → Result ℕ
next_sqrt_price_from_amount_0_rounding_up sqrt_price liquidity amount =
    let numerator_1 = liquidity * 2 ^ 64 in
    if amount == 0
    then ok sqrt_price
    else ceil_quo (numerator_1 * sqrt_price) (numerator_1 + amount * sqrt_price)

unfoldable pub next_sqrt_price_from_amount_1_rounding_down :
    (sqrt_price liquidity amount : ℕ) → Result ℕ
next_sqrt_price_from_amount_1_rounding_down sqrt_price liquidity amount =
    if amount == 0
    then ok sqrt_price
    else (do quotient ← quo (amount * 2 ^ 64) liquidity; ok (sqrt_price + quotient))

unfoldable pub next_sqrt_price_from_input : (sqrt_price liquidity amount_in : ℕ) → Bool → Result ℕ
next_sqrt_price_from_input sqrt_price liquidity amount_in zero_for_one =
    if zero_for_one
    then next_sqrt_price_from_amount_0_rounding_up sqrt_price liquidity amount_in
    else next_sqrt_price_from_amount_1_rounding_down sqrt_price liquidity amount_in
