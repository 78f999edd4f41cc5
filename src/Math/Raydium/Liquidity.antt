-- ===== src/Math/Raydium/Liquidity.antt =====
-- math/raydium/liquidity_math.go: token amounts between two sqrt prices.
-- Prices and liquidity are natural numbers, as decoded.
pub mod Orca
use soldex.Base.{
  ℕ, ◌+◌, ◌-◌, ◌*◌, ◌/◌, ◌%◌, ◌^◌, Bool, true, false, ltb, ◌==◌, if◌then◌else◌, Result, ok, err,
  ◌>>=◌, panicked,
}

abbrev pub q64 : ℕ
q64 = 2 ^ 64

-- `Quo`, which panics for a zero denominator.
unfoldable pub quo : ℕ → ℕ → Result ℕ
quo num den = if den == 0 then err panicked else ok (num / den)

-- `ceilDiv`, of natural numbers.
unfoldable pub ceil_quo : ℕ → ℕ → Result ℕ
ceil_quo num den =
    let q = num / den in
    if den == 0 then err panicked else ok (if (num % den) == 0 then q else q + 1)

-- `if a.Cmp(b) > 0 { a, b = b, a }`
unfoldable pub in_order : ℕ → ℕ → ℕ × ℕ
in_order a b = if ltb b a then (b, a) else (a, b)

-- The rest of the two functions, once the prices are in order.
unfoldable pub delta_0_between : Bool → ℕ → ℕ × ℕ → Result ℕ
delta_0_between true liquidity (a, b) = do
  once ← ceil_quo (liquidity * 2 ^ 64 * (b - a)) b
  ceil_quo once a
delta_0_between false liquidity (a, b) = do once ← quo (liquidity * 2 ^ 64 * (b - a)) b; quo once a

unfoldable pub delta_1_between : Bool → ℕ → ℕ × ℕ → Result ℕ
delta_1_between true liquidity (a, b) = ceil_quo (liquidity * (b - a)) q64
delta_1_between false liquidity (a, b) = quo (liquidity * (b - a)) q64

unfoldable pub get_delta_amount_0_unsigned : (sqrt_a sqrt_b liquidity : ℕ) → Bool → Result ℕ
get_delta_amount_0_unsigned sqrt_a sqrt_b liquidity round_up =
    delta_0_between round_up liquidity (in_order sqrt_a sqrt_b)

unfoldable pub get_delta_amount_1_unsigned : (sqrt_a sqrt_b liquidity : ℕ) → Bool → Result ℕ
get_delta_amount_1_unsigned sqrt_a sqrt_b liquidity round_up =
    delta_1_between round_up liquidity (in_order sqrt_a sqrt_b)
