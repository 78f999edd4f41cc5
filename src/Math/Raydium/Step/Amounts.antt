-- ===== src/Math/Raydium/Step/Amounts.antt =====
-- math/raydium/swap_math.go: the amounts of a step from and to prices that are not zero, and the price
-- after an input.
use soldex.Base.{
  ℕ, zero, suc, ◌+◌, ◌-◌, ◌*◌, ◌/◌, ◌^◌, ◌≤◌, ◌<◌, ◌≡◌, refl, sym, ap, ◌∙◌, inl, inr, arith, Bool,
  true, false, leb, ◌==◌, ok, Bool-cases, leb→le, leb→lt, ==→eq,
}
use soldex.Base.Division.{ceil_div, ceil_div_bounds, ceil_div-le}
use soldex.Math.Common.Success.{div_floor-nat, div_ceil-nat}
use soldex.Math.Raydium.Liquidity.Orca.{quo-of_pos, ceil_quo-of_pos, get_delta_amounts-eq-orca}
use soldex.Math.Raydium.SqrtPrice.{
  next_sqrt_price_from_amount_0_rounding_up, next_sqrt_price_from_amount_1_rounding_down,
  next_sqrt_price_from_input,
}
use soldex.Math.Raydium.Step.{input_between, output_between}
use soldex.Math.Orca.Curve.{
  next_sqrt_price, fixes_a, order, amount_a_between, amount_b_between, get_delta_amount_a,
  get_delta_amount_b, denominator_from_a, next_sqrt_price_from_a, next_sqrt_price_from_b,
}
use soldex.Math.Orca.Curve.Between.{order-le, order-ge, rounded_up, delta_a-le}
use soldex.Math.Orca.Curve.Covers.{from_a-input, from_b-input}

-- The amounts in the input token, rounded up, and in the output token, rounded down.
abbrev pub delta_in : (current next liquidity : ℕ) → Bool → ℕ
delta_in current next l true = get_delta_amount_a next current l true
delta_in current next l false = get_delta_amount_b current next l true

abbrev pub delta_out : (current next liquidity : ℕ) → Bool → ℕ
delta_out current next l true = get_delta_amount_b next current l false
delta_out current next l false = get_delta_amount_a current next l false

pub input_between-eq :
    (p q l : ℕ) (z : Bool) → 0 < p → 0 < q → input_between p q l z ≡ ok (delta_in p q l z)
unfolding input_between
input_between-eq p q l true h k = (get_delta_amounts-eq-orca q p l true k h).0
input_between-eq p q l false h k = (get_delta_amounts-eq-orca p q l true h k).1

pub output_between-eq :
    (p q l : ℕ) (z : Bool) → 0 < p → 0 < q → output_between p q l z ≡ ok (delta_out p q l z)
unfolding output_between
output_between-eq p q l true h k = (get_delta_amounts-eq-orca q p l false k h).1
output_between-eq p q l false h k = (get_delta_amounts-eq-orca p q l false h k).0

pub order-sym : (a b : ℕ) → order a b ≡ order b a
order-sym a b = elim (Bool-cases (leb a b)) [
  | inl le ↦ order-le a b (leb→le _ _ le) ∙ sym (order-ge a b (leb→le _ _ le))
  | inr gt ↦
      let le : b ≤ a = omega (arith, leb→lt _ _ gt) in order-ge b a le ∙ sym (order-le b a le)
]

-- No liquidity, no amount.
delta_a-zero : (x y : ℕ) → get_delta_amount_a x y 0 true ≡ 0
unfolding get_delta_amount_a
delta_a-zero x y = elim (Bool-cases (leb y x)) [
  | inl le ↦ omega (arith, delta_a-le x y 0 0 (leb→le _ _ le) (omega arith))
  | inr gt ↦
      let other = delta_a-le y x 0 0 (omega (arith, leb→lt _ _ gt)) (omega arith) in
      ap (amount_a_between true 0) (order-sym x y) ∙ omega arith
]

amount_b-zero : (x : ℕ × ℕ) → amount_b_between true 0 x ≡ 0
unfolding amount_b_between
amount_b-zero (lo, hi) =
    rounded_up (0 * (hi - lo)) (2 ^ 64)
    ∙ omega (arith, ceil_div-le (0 * (hi - lo)) (2 ^ 64) 0 (omega arith) (omega arith))

pub delta_in-zero : (p q : ℕ) (z : Bool) → delta_in p q 0 z ≡ 0
unfolding get_delta_amount_b
delta_in-zero p q true = delta_a-zero q p
delta_in-zero p q false = amount_b-zero (order p q)

pos_of_bound : (n c d : ℕ) → 0 < n → n ≤ c * d → 0 < c
pos_of_bound n zero d h k = absurd (omega arith)
pos_of_bound n (suc c) d h k = omega arith

zero-div_pos : (a l : ℕ) → a ≡ 0 → 0 < l → a * 2 ^ 64 / l ≡ 0
zero-div_pos a l h k = grind arith

-- The price after an input to liquidity that is not zero: it is one, and not zero.
next_from_0 :
    (p l a : ℕ)
    → 0 < p
    → 0 < l
    → (q : ℕ) × (next_sqrt_price_from_amount_0_rounding_up p l a ≡ ok q)
      × (0 < q)
      × (next_sqrt_price_from_a p l a true ≡ ok q)
unfolding next_sqrt_price_from_amount_0_rounding_up next_sqrt_price_from_a denominator_from_a
next_from_0 p l a pos_p pos_l = elim (Bool-cases (a == 0)) [
  | inl nothing ↦ (p, rw nothing refl, pos_p, rw nothing refl)
  | inr amount ↦
      let d = l * 2 ^ 64 + a * p in
      let n = l * 2 ^ 64 * p in
      let same_d : l * 2 ^ 64 + p * a ≡ d = omega arith in
      let same_n : l * p * 2 ^ 64 ≡ n = omega arith in
      let pos_d : 0 < d = omega arith in
      let (low, _) = ceil_div_bounds n d pos_d in
      (
        ceil_div n d,
        rw amount (ceil_quo-of_pos n d pos_d),
        pos_of_bound n (ceil_div n d) d (grind arith) low,
        rw (amount, same_d, same_n) (div_ceil-nat n d pos_d),
      )
]

next_from_1 :
    (p l a : ℕ)
    → 0 < p
    → 0 < l
    → (q : ℕ) × (next_sqrt_price_from_amount_1_rounding_down p l a ≡ ok q)
      × (0 < q)
      × (next_sqrt_price_from_b p l a true ≡ ok q)
unfolding next_sqrt_price_from_amount_1_rounding_down next_sqrt_price_from_b
next_from_1 p l a pos_p pos_l = elim (Bool-cases (a == 0)) [
  | inl nothing ↦
      let e = ==→eq _ _ nothing in
      (
        p,
        rw nothing refl,
        pos_p,
        rw (div_floor-nat (a * 2 ^ 64) l pos_l)
            (ap (λ m. ok (p + m)) (zero-div_pos a l e pos_l) ∙ ap ok (omega arith)),
      )
  | inr amount ↦ (
    p + a * 2 ^ 64 / l,
    rw (amount, quo-of_pos (a * 2 ^ 64) l pos_l) refl,
    omega arith,
    rw (div_floor-nat (a * 2 ^ 64) l pos_l) refl,
  )
]

-- What a price after an input takes, at most the input.
pub next_sqrt_price_from_input-covers :
    (p l a : ℕ) (z : Bool)
    → 0 < p
    → 0 < l
    → (q : ℕ) × (next_sqrt_price_from_input p l a z ≡ ok q) × (0 < q) × (delta_in p q l z ≤ a)
unfolding next_sqrt_price_from_input get_delta_amount_a
next_sqrt_price_from_input-covers p l a true pos_p pos_l =
    let (q, e, pos_q, orca) = next_from_0 p l a pos_p pos_l in
    let same = ap (amount_a_between true l) (order-sym q p) in
    (q, e, pos_q, omega (arith, from_a-input p l a q orca))
next_sqrt_price_from_input-covers p l a false pos_p pos_l =
    let (q, e, pos_q, orca) = next_from_1 p l a pos_p pos_l in
    (q, e, pos_q, from_b-input p l a q orca)

-- The two ports find the same price after an input.
pub next_sqrt_price_from_input-eq-orca :
    (p l a : ℕ) (z : Bool)
    → 0 < p
    → 0 < l
    → next_sqrt_price_from_input p l a z ≡ next_sqrt_price p l a true z
unfolding next_sqrt_price_from_input next_sqrt_price fixes_a
next_sqrt_price_from_input-eq-orca p l a true pos_p pos_l =
    let (q, e, _, orca) = next_from_0 p l a pos_p pos_l in e ∙ sym orca
next_sqrt_price_from_input-eq-orca p l a false pos_p pos_l =
    let (q, e, _, orca) = next_from_1 p l a pos_p pos_l in e ∙ sym orca
