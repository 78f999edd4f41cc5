-- ===== src/Math/Raydium/Liquidity/Orca.antt =====
-- math/raydium/liquidity_math.go and sqrt_price_math.go against math/orca/curve_math.go.
use native.Mathlib.Nat.{mul-le-mul_left}
use soldex.Base.{
  ℕ, ◌+◌, ◌-◌, ◌*◌, ◌/◌, ◌^◌, ◌≤◌, ◌<◌, ◌≡◌, refl, sym, ap, ◌∙◌, arith, Bool, true, false, ok,
  >>=-eq-ok, ok-injective,
}
use soldex.Base.Division.{ceil_div, ceil_div_bounds, ceil_div_unique, div_bounds, div_unique}
use soldex.Math.Raydium.Liquidity.{
  quo, ceil_quo, in_order, delta_0_between, delta_1_between, get_delta_amount_0_unsigned,
  get_delta_amount_1_unsigned,
}
use soldex.Math.Orca.Curve.{
  order, amount_a_between, amount_b_between, get_delta_amount_a, get_delta_amount_b,
}
use soldex.Math.Orca.Curve.Between.{rounded_up, rounded_down, between_a, between_b}

pub quo-ok : (n d : ℕ) {v : ℕ} → quo n d ≡ ok v → (0 < d) × (v ≡ n / d)
unfolding quo
quo-ok n d h = ground arith

pub ceil_quo-ok : (n d : ℕ) {v : ℕ} → ceil_quo n d ≡ ok v → (0 < d) × (v ≡ ceil_div n d)
unfolding ceil_quo ceil_div
ceil_quo-ok n d h = ground arith

pub quo-of_pos : (n d : ℕ) → 0 < d → quo n d ≡ ok (n / d)
unfolding quo
quo-of_pos n d h = ground arith

pub ceil_quo-of_pos : (n d : ℕ) → 0 < d → ceil_quo n d ≡ ok (ceil_div n d)
unfolding ceil_quo ceil_div
ceil_quo-of_pos n d h = ground arith

rounded_twice :
    (n q r a b : ℕ)
    → n ≤ q * b
    → q * b < n + b
    → q ≤ r * a
    → r * a < q + a
    → (n ≤ r * (b * a)) × (r * (b * a) < n + b * a)
rounded_twice n q r a b h k l m =
    let low = mul-le-mul_left {m = q} {n = r * a} b l in
    let high = mul-le-mul_left {m = r * a + 1} {n = q + a} b (omega arith) in
    (omega arith, omega arith)

floored_twice :
    (n q r a b : ℕ)
    → q * b ≤ n
    → n < q * b + b
    → r * a ≤ q
    → q < r * a + a
    → (r * (b * a) ≤ n) × (n < r * (b * a) + b * a)
floored_twice n q r a b h k l m =
    let low = mul-le-mul_left {m = r * a} {n = q} b l in
    let high = mul-le-mul_left {m = q + 1} {n = r * a + a} b (omega arith) in
    (omega arith, omega arith)

-- Two roundings in the same direction are one.
pub ceil_div-ceil_div : (n a b : ℕ) → 0 < a → 0 < b → ceil_div (ceil_div n b) a ≡ ceil_div n (b * a)
ceil_div-ceil_div n a b ha hb =
    let (low, high) = ceil_div_bounds n b hb in
    let (low', high') = ceil_div_bounds (ceil_div n b) a ha in
    let (up, down) =
      rounded_twice n (ceil_div n b) (ceil_div (ceil_div n b) a) a b low high low' high' in
    sym (ceil_div_unique n (b * a) (ceil_div (ceil_div n b) a) up down)

pub div-div : (n a b : ℕ) → 0 < a → 0 < b → n / b / a ≡ n / (b * a)
div-div n a b ha hb =
    let (low, high) = div_bounds n b hb in
    let (low', high') = div_bounds (n / b) a ha in
    let (up, down) = floored_twice n (n / b) (n / b / a) a b low high low' high' in
    sym (div_unique n (b * a) (n / b / a) up down)

in_order-eq-order : (a b : ℕ) → in_order a b ≡ order a b
unfolding in_order order
in_order-eq-order a b = refl

-- Success means that neither price is zero; and then the amount is the one that Orca computes.
between_0-pos :
    (up : Bool) (l lo hi : ℕ) {v : ℕ} → delta_0_between up l (lo, hi) ≡ ok v → (0 < lo) × (0 < hi)
unfolding delta_0_between
between_0-pos true l lo hi h =
    let (once, e, h₁) = >>=-eq-ok (ceil_quo (l * 2 ^ 64 * (hi - lo)) hi) _ h in
    ((ceil_quo-ok once lo h₁).0, (ceil_quo-ok (l * 2 ^ 64 * (hi - lo)) hi e).0)
between_0-pos false l lo hi h =
    let (once, e, h₁) = >>=-eq-ok (quo (l * 2 ^ 64 * (hi - lo)) hi) _ h in
    ((quo-ok once lo h₁).0, (quo-ok (l * 2 ^ 64 * (hi - lo)) hi e).0)

between_0-eq :
    (up : Bool) (l lo hi : ℕ)
    → 0 < lo
    → 0 < hi
    → delta_0_between up l (lo, hi) ≡ ok (amount_a_between up l (lo, hi))
unfolding delta_0_between
between_0-eq true l lo hi pos_lo pos_hi =
    let n = l * 2 ^ 64 * (hi - lo) in
    let same : n ≡ l * (hi - lo) * 2 ^ 64 = omega arith in
    let once = ceil_div-ceil_div n lo hi pos_lo pos_hi ∙ ap (λ m. ceil_div m (hi * lo)) same in
    rw (ceil_quo-of_pos n hi pos_hi) (
      ceil_quo-of_pos (ceil_div n hi) lo pos_lo
      ∙ ap ok (
          once
          ∙ sym (rounded_up (l * (hi - lo) * 2 ^ 64) (hi * lo))
          ∙ sym (between_a true l lo hi (grind arith))))
between_0-eq false l lo hi pos_lo pos_hi =
    let n = l * 2 ^ 64 * (hi - lo) in
    let same : n ≡ l * (hi - lo) * 2 ^ 64 = omega arith in
    let once = div-div n lo hi pos_lo pos_hi ∙ ap (λ m. m / (hi * lo)) same in
    rw (quo-of_pos n hi pos_hi) (
      quo-of_pos (n / hi) lo pos_lo
      ∙ ap ok (
          once
          ∙ sym (rounded_down (l * (hi - lo) * 2 ^ 64) (hi * lo))
          ∙ sym (between_a false l lo hi (grind arith))))

between_1-eq :
    (up : Bool) (l lo hi : ℕ) → delta_1_between up l (lo, hi) ≡ ok (amount_b_between up l (lo, hi))
unfolding delta_1_between
between_1-eq true l lo hi =
    ceil_quo-of_pos (l * (hi - lo)) (2 ^ 64) (omega arith)
    ∙ ap ok (sym (rounded_up (l * (hi - lo)) (2 ^ 64)) ∙ sym (between_b true l lo hi))
between_1-eq false l lo hi =
    quo-of_pos (l * (hi - lo)) (2 ^ 64) (omega arith)
    ∙ ap ok (sym (rounded_down (l * (hi - lo)) (2 ^ 64)) ∙ sym (between_b false l lo hi))

order-pos : (a b : ℕ) → 0 < a → 0 < b → (0 < (order a b).0) × (0 < (order a b).1)
unfolding order
order-pos a b h k = ground arith

pos-order : (a b : ℕ) → 0 < (order a b).0 → 0 < (order a b).1 → (0 < a) × (0 < b)
unfolding order
pos-order a b h k = ground arith

-- For prices that are not zero, the amounts that Raydium computes, rounded twice or once, up or down,
-- are those that Orca computes with one rounding; in particular neither panics.
pub get_delta_amounts-eq-orca :
    (a b l : ℕ) (up : Bool)
    → 0 < a
    → 0 < b
    → (get_delta_amount_0_unsigned a b l up ≡ ok (get_delta_amount_a a b l up))
      × (get_delta_amount_1_unsigned a b l up ≡ ok (get_delta_amount_b a b l up))
unfolding get_delta_amount_0_unsigned get_delta_amount_1_unsigned get_delta_amount_a
    get_delta_amount_b in_order order
get_delta_amounts-eq-orca a b l up pos_a pos_b =
    let (lo, hi) = order a b in
    let (pos_lo, pos_hi) = order-pos a b pos_a pos_b in
    (between_0-eq up l lo hi pos_lo pos_hi, between_1-eq up l lo hi)

pub get_delta_amount_0_unsigned-ok :
    (a b l : ℕ) (up : Bool) {v : ℕ}
    → get_delta_amount_0_unsigned a b l up ≡ ok v
    → (0 < a) × (0 < b) × (v ≡ get_delta_amount_a a b l up)
unfolding get_delta_amount_0_unsigned in_order order
get_delta_amount_0_unsigned-ok a b l up h =
    let (pos_lo, pos_hi) = between_0-pos up l ((order a b).0) ((order a b).1) h in
    let (pos_a, pos_b) = pos-order a b pos_lo pos_hi in
    (pos_a, pos_b, ok-injective (sym h ∙ (get_delta_amounts-eq-orca a b l up pos_a pos_b).0))

pub get_delta_amount_1_unsigned-ok :
    (a b l : ℕ) (up : Bool) {v : ℕ}
    → get_delta_amount_1_unsigned a b l up ≡ ok v
    → v ≡ get_delta_amount_b a b l up
unfolding get_delta_amount_1_unsigned get_delta_amount_b in_order order
get_delta_amount_1_unsigned-ok a b l up h =
    ok-injective (sym h ∙ between_1-eq up l ((order a b).0) ((order a b).1))
