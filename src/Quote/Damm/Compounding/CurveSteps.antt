-- ===== src/Quote/Damm/Compounding/CurveSteps.antt =====
-- quote/damm/compounding_quote.go: what the steps of the two quotes returned, in either direction.
use mathlib.Core.Path.{subst}
use soldex.Base.{
  ℕ, ◌+◌, ◌-◌, ◌*◌, ◌/◌, ◌≤◌, ◌<◌, ◌≡◌, ap, ◌∙◌, inl, inr, arith, leb, if◌then◌else◌, ok, err,
  insufficient_liquidity, >>=-eq-ok, ok-injective, Bool-cases, leb→lt,
}
use soldex.Base.Words.{u64_mod, sub_wrap, sub_wrap_exact, add_wrap, add_wrap_exact}
use soldex.Base.Division.{ceil_div, ceil_div_bounds, le-div}
use soldex.Math.Damm.MulDiv.{rounding_up, rounding_down}
use soldex.Math.Damm.Cast.{safe_mul_div_cast_u64}
use soldex.Math.Damm.Cast.Rounds.{safe_mul_div_cast_u64-ok}
use soldex.Quote.Damm.Fees.{
  TradeDirection, a_to_b, b_to_a, fee_denominator, get_excluded_fee_amount, get_included_fee_amount,
}
use soldex.Quote.Damm.Fees.Split.{get_excluded_fee_amount-ok}
use soldex.Quote.Damm.Compounding.{
  a_to_b_from_amount_in, b_to_a_from_amount_in, a_to_b_from_amount_out, b_to_a_from_amount_out,
  curve_output, input_for_output,
}

-- The reserve that the swap pays into, and the one that it pays from.
abbrev pub reserve_in : TradeDirection → ℕ → ℕ → ℕ
reserve_in a_to_b token_a token_b = token_a
reserve_in b_to_a token_a token_b = token_b

abbrev pub reserve_out : TradeDirection → ℕ → ℕ → ℕ
reserve_out a_to_b token_a token_b = token_b
reserve_out b_to_a token_a token_b = token_a

pub curve_output-ok :
    (direction : TradeDirection) (token_a token_b amount_in : ℕ) {v : ℕ}
    → curve_output direction token_a token_b amount_in ≡ ok v
    → reserve_in direction token_a token_b + amount_in < u64_mod
    → (0 < reserve_in direction token_a token_b + amount_in)
      × (v
          ≡ reserve_out direction token_a token_b
            * amount_in
            / (reserve_in direction token_a token_b + amount_in))
      × (v < u64_mod)
unfolding curve_output a_to_b_from_amount_in b_to_a_from_amount_in
curve_output-ok a_to_b a b n h fits =
    rw (add_wrap_exact a n fits) at (safe_mul_div_cast_u64-ok b n (add_wrap a n) rounding_down h)
curve_output-ok b_to_a a b n h fits =
    rw (add_wrap_exact b n fits) at (safe_mul_div_cast_u64-ok a n (add_wrap b n) rounding_down h)

from_out :
    (x out y : ℕ) {n : ℕ}
    → (if leb y out
        then err insufficient_liquidity
        else safe_mul_div_cast_u64 64 x out (sub_wrap y out) rounding_up)
      ≡ ok n
    → y < u64_mod
    → (out < y) × (n ≡ ceil_div (x * out) (y - out)) × (n < u64_mod)
from_out x out y {n} h fits = elim (Bool-cases (leb y out)) [
  | inl empty ↦ absurd (cc (rw empty at h))
  | inr fine ↦
      let less = leb→lt _ _ fine in
      let exact = sub_wrap_exact y out (omega arith) fits in
      let (_, q, small) =
        safe_mul_div_cast_u64-ok x out (sub_wrap y out) rounding_up (rw fine at h) in
      (less, q ∙ ap (λ m. ceil_div (x * out) m) exact, small)
]

pub input_for_output-ok :
    (direction : TradeDirection) (token_a token_b amount_out : ℕ) {n : ℕ}
    → input_for_output token_a token_b amount_out direction ≡ ok n
    → reserve_out direction token_a token_b < u64_mod
    → (amount_out < reserve_out direction token_a token_b)
      × (n
          ≡ ceil_div
              (reserve_in direction token_a token_b * amount_out)
              (reserve_out direction token_a token_b - amount_out))
      × (n < u64_mod)
unfolding input_for_output a_to_b_from_amount_out b_to_a_from_amount_out
input_for_output-ok a_to_b a b out h fits = from_out a out b h fits
input_for_output-ok b_to_a a b out h fits = from_out b out a h fits

-- The input found for an output gives at least that output on the curve, and so does a larger one.
pub curve-round_trip :
    (x y out n m : ℕ)
    → out < y
    → n ≡ ceil_div (x * out) (y - out)
    → n ≤ m
    → 0 < x + m
    → out ≤ y * m / (x + m)
curve-round_trip x y out n m less e le positive =
    let (low, _) = ceil_div_bounds (x * out) (y - out) (omega arith) in
    let bound : x * out ≤ n * (y - out) = rw e low in
    let more : n * (y - out) ≤ m * (y - out) = grind arith in
    let rest : (y - out) + out ≡ y = omega arith in
    let scaled : out * (x + m) ≤ ((y - out) + out) * m = grind arith in
    le-div (y * m) (x + m) out positive (rw rest at scaled)

split_product : (a d r n : ℕ) → d + r ≡ n → a * d + a * r ≡ a * n
split_product a d r n h = subst (λ m. a * d + a * r ≡ a * m) h (omega arith)

-- The fee taken off an amount with its fee leaves at least the amount without.
pub get_excluded_fee_amount-ge :
    (rate amount net : ℕ) {p : ℕ × ℕ}
    → get_excluded_fee_amount rate amount ≡ ok p
    → amount < u64_mod
    → rate < fee_denominator
    → net * fee_denominator ≤ amount * (fee_denominator - rate)
    → net ≤ p.0
get_excluded_fee_amount-ge rate amount net {p} h fits hn le =
    let (charged, whole, _) = get_excluded_fee_amount-ok rate amount h fits (omega arith) in
    let (_, high) = ceil_div_bounds (amount * rate) fee_denominator (omega arith) in
    let high' : p.1 * fee_denominator < amount * rate + fee_denominator = rw charged high in
    let split : amount * (fee_denominator - rate) + amount * rate ≡ amount * fee_denominator =
      split_product amount (fee_denominator - rate) rate fee_denominator (omega arith) in
    omega arith

pub get_included_fee_amount-ok :
    (rate amount : ℕ) {p : ℕ × ℕ}
    → get_included_fee_amount rate amount ≡ ok p
    → rate < fee_denominator
    → (amount * fee_denominator ≤ p.0 * (fee_denominator - rate)) × (p.0 < u64_mod)
unfolding get_included_fee_amount
get_included_fee_amount-ok rate amount {p} h hn =
    let den = sub_wrap_exact fee_denominator rate (omega arith) (omega arith) in
    let (inc, e, h₁) =
      >>=-eq-ok
        (safe_mul_div_cast_u64 64 amount fee_denominator (sub_wrap fee_denominator rate)
          rounding_up)
        _ h in
    let (_, q, small) =
      safe_mul_div_cast_u64-ok amount fee_denominator (sub_wrap fee_denominator rate) rounding_up
        e in
    let (low, _) =
      ceil_div_bounds (amount * fee_denominator) (fee_denominator - rate) (omega arith) in
    let same = q ∙ ap (λ m. ceil_div (amount * fee_denominator) m) den in
    subst (λ r. (amount * fee_denominator ≤ r.0 * (fee_denominator - rate)) × (r.0 < u64_mod))
      (ok-injective h₁) (rw same low, small)
