-- ===== src/Math/Orca/Curve/Between.antt =====
-- math/orca/curve_math.go: the amount between two prices, against products of the prices.
use mathlib.Core.Path.{subst}
use soldex.Base.{
  ℕ, zero, suc, ◌+◌, ◌-◌, ◌*◌, ◌/◌, ◌^◌, ◌≤◌, ◌<◌, ◌≡◌, refl, sym, ap, ◌⊎◌, inl, inr, arith, Bool,
  true, false, ltb, ◌==◌, Bool-cases, ltb→le, ==→eq,
}
use soldex.Base.Division.{ceil_div, ceil_div-le, le-div}
use soldex.Math.Orca.Curve.{
  order, quo_rem_rounded, amount_a_between, amount_b_between, get_delta_amount_a,
}

pub rounded_up : (n d : ℕ) → quo_rem_rounded true n d ≡ ceil_div n d
unfolding quo_rem_rounded ceil_div
rounded_up n d = ground arith

pub rounded_down : (n d : ℕ) → quo_rem_rounded false n d ≡ n / d
unfolding quo_rem_rounded
rounded_down n d = refl

pub order-le : (a b : ℕ) → a ≤ b → order a b ≡ (a, b)
unfolding order
order-le a b h = ground arith

pub order-ge : (a b : ℕ) → a ≤ b → order b a ≡ (a, b)
unfolding order
order-ge a b h = elim (Bool-cases (ltb a b)) [
  | inl less ↦ rw less refl
  | inr more ↦ let same : a ≡ b = omega (arith, ltb→le _ _ more) in rw (more, same) refl
]

add-sub_cancel : (e q : ℕ) → (e + q) - q ≡ e
add-sub_cancel e q = omega arith

zero-or_pos : (n : ℕ) → (n ≡ 0) ⊎ (0 < n)
zero-or_pos zero = inl refl
zero-or_pos (suc n) = inr (omega arith)

-- The products that the roundings compare, with the prices `q` and `e + q` and the scale `s`.
input_a-product :
    (e q l a s : ℕ) → l * (e + q) * s ≤ q * (l * s + (e + q) * a) → l * e * s ≤ a * ((e + q) * q)
input_a-product e q l a s h = grind arith

output_a-product :
    (e q l a s d : ℕ) → d + q * a ≡ l * s → l * q * s ≤ (e + q) * d → a * ((e + q) * q) ≤ l * e * s
output_a-product e q l a s d h k =
    let scaled : (e + q) * (d + q * a) ≡ (e + q) * (l * s) = ap (λ n. (e + q) * n) h in grind arith

input_b-product : (l a s r : ℕ) → r * l ≤ a * s → l * r ≤ a * s
input_b-product l a s r h = omega arith

pub between_a :
    (up : Bool) (l lo hi : ℕ)
    → 0 < hi * lo
    → amount_a_between up l (lo, hi) ≡ quo_rem_rounded up (l * (hi - lo) * 2 ^ 64) (hi * lo)
unfolding amount_a_between
between_a up l lo hi h = elim (Bool-cases ((hi * lo) == 0)) [
  | inl none_left ↦ absurd (omega (arith, ==→eq _ _ none_left))
  | inr some_left ↦ rw some_left refl
]

between_a-zero : (up : Bool) (l lo hi : ℕ) → hi * lo ≡ 0 → amount_a_between up l (lo, hi) ≡ 0
unfolding amount_a_between
between_a-zero up l lo hi h = rw h refl

pub between_b :
    (up : Bool) (l lo hi : ℕ)
    → amount_b_between up l (lo, hi) ≡ quo_rem_rounded up (l * (hi - lo)) (2 ^ 64)
unfolding amount_b_between
between_b up l lo hi = refl

-- Between prices that are `e` apart: rounded up at most the amount, or rounded down at least.
amount_a-le :
    (e q l a : ℕ)
    → l * (e + q) * 2 ^ 64 ≤ q * (l * 2 ^ 64 + (e + q) * a)
    → amount_a_between true l (q, e + q) ≤ a
amount_a-le e q l a h =
    let num : l * ((e + q) - q) * 2 ^ 64 ≤ a * ((e + q) * q) =
      rw (add-sub_cancel e q) (input_a-product e q l a (2 ^ 64) h) in
    elim (zero-or_pos ((e + q) * q)) [
      | inl none_left ↦ rw (between_a-zero true l q (e + q) none_left) (omega arith)
      | inr positive ↦
          rw
            (
              between_a true l q (e + q) positive,
              rounded_up (l * ((e + q) - q) * 2 ^ 64) ((e + q) * q),
            )
            (ceil_div-le (l * ((e + q) - q) * 2 ^ 64) ((e + q) * q) a positive num)
    ]

amount_a-ge :
    (e q l a d : ℕ)
    → 0 < q
    → d + q * a ≡ l * 2 ^ 64
    → l * q * 2 ^ 64 ≤ (e + q) * d
    → a ≤ amount_a_between false l (q, e + q)
amount_a-ge e q l a d positive h k =
    let num : a * ((e + q) * q) ≤ l * ((e + q) - q) * 2 ^ 64 =
      rw (add-sub_cancel e q) (output_a-product e q l a (2 ^ 64) d h k) in
    let den : 0 < (e + q) * q = grind arith in
    rw (between_a false l q (e + q) den, rounded_down (l * ((e + q) - q) * 2 ^ 64) ((e + q) * q))
      (le-div (l * ((e + q) - q) * 2 ^ 64) ((e + q) * q) a den num)

pub delta_a-le :
    (p q l a : ℕ)
    → q ≤ p
    → l * p * 2 ^ 64 ≤ q * (l * 2 ^ 64 + p * a)
    → get_delta_amount_a p q l true ≤ a
unfolding get_delta_amount_a
delta_a-le p q l a le h =
    let whole : (p - q) + q ≡ p = omega arith in
    let scaled = subst (λ n. l * n * 2 ^ 64 ≤ q * (l * 2 ^ 64 + n * a)) (sym whole) h in
    rw (order-ge q p le)
      (subst (λ n. amount_a_between true l (q, n) ≤ a) whole (amount_a-le (p - q) q l a scaled))

pub delta_a-ge :
    (p q l a d : ℕ)
    → 0 < p
    → p ≤ q
    → d + p * a ≡ l * 2 ^ 64
    → l * p * 2 ^ 64 ≤ q * d
    → a ≤ get_delta_amount_a p q l false
unfolding get_delta_amount_a
delta_a-ge p q l a d positive le h k =
    let whole : (q - p) + p ≡ q = omega arith in
    let scaled = subst (λ n. l * p * 2 ^ 64 ≤ n * d) (sym whole) k in
    rw (order-le p q le) (
      subst (λ n. a ≤ amount_a_between false l (p, n)) whole
        (amount_a-ge (q - p) p l a d positive h scaled))
