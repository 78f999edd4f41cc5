-- ===== src/Math/Orca/Curve/Covers.antt =====
-- math/orca/curve_math.go: the amount between a price and the next price, against the amount given.
use soldex.Base.{
  ℕ, ◌+◌, ◌-◌, ◌*◌, ◌^◌, ◌≤◌, ◌<◌, ◌≡◌, sym, ap, ◌⊎◌, inl, inr, arith, Bool, true, false, ◌==◌,
  if◌then◌else◌, ok, >>=-eq-ok, ok-injective, Bool-cases, ==→eq,
}
use soldex.Base.Division.{ceil_div, ceil_div_bounds, ceil_div-le, div_bounds, le-div, le_of_scaled}
use soldex.Math.Common.{nat, div_floor, div_ceil}
use soldex.Math.Common.Success.{div_floor-ok, div_ceil-ok}
use soldex.Math.Orca.Curve.{
  get_delta_amount_a, get_delta_amount_b, denominator_from_a, next_sqrt_price_from_a,
  next_sqrt_price_from_b, fixes_a, next_sqrt_price,
}
use soldex.Math.Orca.Curve.Between.{
  rounded_up, rounded_down, order-le, order-ge, between_b, delta_a-le, delta_a-ge,
}

next_a-ok :
    (p l a : ℕ) (is_input : Bool) {q : ℕ}
    → next_sqrt_price_from_a p l a is_input ≡ ok q
    → ((a ≡ 0) × (q ≡ p))
      ⊎ ((d : ℕ) × (denominator_from_a (l * 2 ^ 64) (p * a) is_input ≡ ok d)
          × (0 < d)
          × (q ≡ ceil_div (l * p * 2 ^ 64) d))
unfolding next_sqrt_price_from_a
next_a-ok p l a is_input {q} h = elim (Bool-cases (a == 0)) [
  | inl nothing ↦ inl (==→eq _ _ nothing, sym (ok-injective (rw nothing at h)))
  | inr amount ↦
      let (d, e, h₁) =
        >>=-eq-ok (denominator_from_a (l * 2 ^ 64) (p * a) is_input) _ (rw amount at h) in
      let (positive, same) = div_ceil-ok (l * p * 2 ^ 64) d h₁ in inr (d, e, positive, same)
]

pub from_a-input :
    (p l a q : ℕ) → next_sqrt_price_from_a p l a true ≡ ok q → get_delta_amount_a p q l true ≤ a
unfolding denominator_from_a
from_a-input p l a q h = elim (next_a-ok p l a true h) [
  | inl (none_in, same) ↦ delta_a-le p q l a (omega arith) (rw same (omega arith))
  | inr (d, e, positive, same) ↦
      let sum : l * 2 ^ 64 + p * a ≡ d = ok-injective e in
      let (low, high) = ceil_div_bounds (l * p * 2 ^ 64) d positive in
      let fits : l * p * 2 ^ 64 ≤ p * d = rw (sym sum) (grind arith) in
      let le : q ≤ p = rw same (ceil_div-le (l * p * 2 ^ 64) d p positive fits) in
      delta_a-le p q l a le (rw (sum, same) low)
]

from_a-output :
    (p l a q : ℕ)
    → 0 < p
    → next_sqrt_price_from_a p l a false ≡ ok q
    → a ≤ get_delta_amount_a p q l false
unfolding denominator_from_a
from_a-output p l a q pos_p h = elim (next_a-ok p l a false h) [
  | inl (none_out, same) ↦ omega arith
  | inr (d, e, positive, same) ↦
      let sum : d + p * a ≡ l * 2 ^ 64 = ground arith in
      let (low, high) = ceil_div_bounds (l * p * 2 ^ 64) d positive in
      let low' : l * p * 2 ^ 64 ≤ q * d = rw same low in
      let scaled : p * (d + p * a) ≡ p * (l * 2 ^ 64) = ap (λ n. p * n) sum in
      let no_less : p * d ≤ q * d = grind arith in
      let le : p ≤ q = le_of_scaled p q d (omega arith) in delta_a-ge p q l a d pos_p le sum low'
]

-- The same for the other token.
pub from_b-input :
    (p l a q : ℕ) → next_sqrt_price_from_b p l a true ≡ ok q → get_delta_amount_b p q l true ≤ a
unfolding next_sqrt_price_from_b get_delta_amount_b
from_b-input p l a q h =
    let (r, e, h₁) = >>=-eq-ok (div_floor (nat (a * 2 ^ 64)) (nat l)) _ h in
    let (positive, same) = div_floor-ok (a * 2 ^ 64) l e in
    let (low, _) = div_bounds (a * 2 ^ 64) l positive in
    let sum : p + r ≡ q = ok-injective h₁ in
    let apart : q - p ≡ r = omega arith in
    rw (order-le p q (omega arith), between_b true l p q, rounded_up (l * (q - p)) (2 ^ 64), apart)
      (ceil_div-le (l * r) (2 ^ 64) a (omega arith) (rw same (omega arith)))

from_b-output :
    (p l a q : ℕ) → next_sqrt_price_from_b p l a false ≡ ok q → a ≤ get_delta_amount_b p q l false
unfolding next_sqrt_price_from_b get_delta_amount_b
from_b-output p l a q h =
    let (r, e, h₁) = >>=-eq-ok (div_ceil (nat (a * 2 ^ 64)) (nat l)) _ h in
    let (positive, same) = div_ceil-ok (a * 2 ^ 64) l e in
    let (low, _) = ceil_div_bounds (a * 2 ^ 64) l positive in
    let below : (q ≤ p) × (p - q ≡ r) = ground arith in
    rw (order-ge q p below.0, between_b false l q p, rounded_down (l * (p - q)) (2 ^ 64), below.1)
      (le-div (l * r) (2 ^ 64) a (omega arith) (rw same (omega arith)))

-- What the amount at a fixed token means for the next price `q` from `p`: an input is at least what
-- the move to `q` takes, rounded up, and an output at most what it gives, rounded down.
abbrev pub delta : Bool → ℕ → ℕ → ℕ → Bool → ℕ
delta true = get_delta_amount_a
delta false = get_delta_amount_b

abbrev pub Covers : (is_input token_a : Bool) → (p q l amount : ℕ) → Type 0
Covers true token_a p q l amount = delta token_a p q l true ≤ amount
Covers false token_a p q l amount = amount ≤ delta token_a p q l false

from-Covers :
    (token_a is_input : Bool) (p l a q : ℕ)
    → 0 < p
    → (if token_a
        then next_sqrt_price_from_a p l a is_input
        else next_sqrt_price_from_b p l a is_input)
      ≡ ok q
    → Covers is_input token_a p q l a
from-Covers true true p l a q positive h = from_a-input p l a q h
from-Covers true false p l a q positive h = from_a-output p l a q positive h
from-Covers false true p l a q positive h = from_b-input p l a q h
from-Covers false false p l a q positive h = from_b-output p l a q h

-- Where there is a next sqrt price for an amount, from a price that is not zero, it is on the pool's
-- side: the amount of the fixed token between the two prices, rounded up, is at most an input, and,
-- rounded down, at least an output; for either token and either direction.
pub next_sqrt_price-Covers :
    (p l amount : ℕ) (is_input a_to_b : Bool) {q : ℕ}
    → 0 < p
    → next_sqrt_price p l amount is_input a_to_b ≡ ok q
    → Covers is_input (fixes_a is_input a_to_b) p q l amount
unfolding next_sqrt_price
next_sqrt_price-Covers p l amount is_input a_to_b {q} positive h =
    from-Covers (fixes_a is_input a_to_b) is_input p l amount q positive h
