-- ===== src/Math/Orca/Curve.antt =====
-- math/orca/curve_math.go: token amounts between two sqrt prices, and the price after an amount.
-- Sqrt prices, liquidity and amounts are natural numbers, as decoded.
pub mod Between
pub mod Covers
use soldex.Base.{
  ℕ, zero, suc, ◌+◌, ◌-◌, ◌*◌, ◌/◌, ◌%◌, ◌^◌, ◌≤◌, ◌<◌, ◌≡◌, ◌≢◌, refl, sym, ap, ◌∙◌, ◌↔◌, ◌⊎◌, inl,
  inr, arith, Bool, true, false, not, ◌&&◌, ◌||◌, Option, none, some, List, [], ◌∷◌, ◌++◌, ltb, leb,
  ◌==◌, if◌then◌else◌, Result, ok, err, ◌>>=◌, ◌>>◌, Error, orca_divide_by_zero,
  sqrt_price_out_of_bounds, math_overflow, divide_by_zero, negative_value, type_cast_failed,
  fail_if, zero_output, unsupported_curve, unknown_creator_fee_on, insufficient_liquidity,
  price_range_violation, compounding_pool, >>=-eq-ok, ok-injective, Bool-cases, Option-cases,
  ltb→lt, ltb→le, leb→le, leb→lt, ==→eq, lt→ltb, le→ltb, le→leb,
}
use soldex.Math.Common.{nat, div_floor, div_ceil}

abbrev pub q64_resolution : ℕ
q64_resolution = 64

unfoldable pub order : ℕ → ℕ → ℕ × ℕ
order a b = if ltb b a then (b, a) else (a, b)

-- `QuoRem`, and the test of the remainder.
unfoldable pub quo_rem_rounded : Bool → ℕ → ℕ → ℕ
quo_rem_rounded round_up numerator denominator =
    let quotient = numerator / denominator in
    if round_up && not ((numerator % denominator) == 0) then quotient + 1 else quotient

-- The rest of the two functions, once the prices are in order.
unfoldable pub amount_a_between : Bool → (liquidity : ℕ) → ℕ × ℕ → ℕ
amount_a_between round_up liquidity (lower, upper) =
    let denominator = upper * lower in
    let numerator = liquidity * (upper - lower) * 2 ^ q64_resolution in
    if denominator == 0 then 0 else quo_rem_rounded round_up numerator denominator

-- The shift right and the mask are the quotient and the remainder by 2 ^ 64.
unfoldable pub amount_b_between : Bool → (liquidity : ℕ) → ℕ × ℕ → ℕ
amount_b_between round_up liquidity (lower, upper) =
    quo_rem_rounded round_up (liquidity * (upper - lower)) (2 ^ q64_resolution)

unfoldable pub get_delta_amount_a : (sqrt_price_0 sqrt_price_1 liquidity : ℕ) → Bool → ℕ
get_delta_amount_a sqrt_price_0 sqrt_price_1 liquidity round_up =
    amount_a_between round_up liquidity (order sqrt_price_0 sqrt_price_1)

unfoldable pub get_delta_amount_b : (sqrt_price_0 sqrt_price_1 liquidity : ℕ) → Bool → ℕ
get_delta_amount_b sqrt_price_0 sqrt_price_1 liquidity round_up =
    amount_b_between round_up liquidity (order sqrt_price_0 sqrt_price_1)

-- The denominator of `nextSqrtPriceFromA`.
unfoldable pub denominator_from_a : (liquidity_shift product : ℕ) → Bool → Result ℕ
denominator_from_a liquidity_shift product true = ok (liquidity_shift + product)
denominator_from_a liquidity_shift product false =
    if leb liquidity_shift product then err orca_divide_by_zero else ok (liquidity_shift - product)

unfoldable pub next_sqrt_price_from_a : (sqrt_price liquidity amount : ℕ) → Bool → Result ℕ
next_sqrt_price_from_a sqrt_price liquidity amount is_input =
    if amount == 0 then ok sqrt_price else (do
      denominator ←
          denominator_from_a (liquidity * 2 ^ q64_resolution) (sqrt_price * amount) is_input
      div_ceil (nat (liquidity * sqrt_price * 2 ^ q64_resolution)) (nat denominator))

unfoldable pub next_sqrt_price_from_b : (sqrt_price liquidity amount : ℕ) → Bool → Result ℕ
next_sqrt_price_from_b sqrt_price liquidity amount true = do
  delta ← div_floor (nat (amount * 2 ^ q64_resolution)) (nat liquidity)
  ok (sqrt_price + delta)
next_sqrt_price_from_b sqrt_price liquidity amount false = do
  delta ← div_ceil (nat (amount * 2 ^ q64_resolution)) (nat liquidity)
  if ltb sqrt_price delta then err sqrt_price_out_of_bounds else ok (sqrt_price - delta)

-- `isInput == aToB`
unfoldable pub fixes_a : Bool → Bool → Bool
fixes_a true a_to_b = a_to_b
fixes_a false a_to_b = not a_to_b

unfoldable pub next_sqrt_price : (sqrt_price liquidity amount : ℕ) → Bool → Bool → Result ℕ
next_sqrt_price sqrt_price liquidity amount is_input a_to_b =
    if fixes_a is_input a_to_b
    then next_sqrt_price_from_a sqrt_price liquidity amount is_input
    else next_sqrt_price_from_b sqrt_price liquidity amount is_input
