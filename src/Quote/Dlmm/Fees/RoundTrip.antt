-- ===== src/Quote/Dlmm/Fees/RoundTrip.antt =====
-- quote/dlmm/fees.go: the fee added to a net amount and the fee taken from a gross one agree.
use soldex.Base.{ℕ, ◌+◌, ◌-◌, ◌*◌, ◌/◌, ◌≤◌, ◌<◌, ◌≡◌, ap, ◌∙◌, arith, ok}
use native.Mathlib.Nat.{mul-le-mul_left}
use soldex.Base.Words.{u64_mod}
use soldex.Base.Division.{
  ceil_div, ceil_div_bounds, ceil_div_unique, ceil_div-add_pred, ceil_div-le,
}
use soldex.Quote.Dlmm.Fees.{
  compute_fee, compute_fee_from_amount, compute_protocol_fee, fee_precision, basis_point_max,
  add_u64, sub_u64,
}

-- A successful fee is the least with fee * (precision - rate) at least amount * rate.
pub compute_fee-ok :
    (amount rate : ℕ) {fee : ℕ}
    → compute_fee amount rate ≡ ok fee
    → (rate < fee_precision)
      × (fee ≡ ceil_div (amount * rate) (fee_precision - rate))
      × (fee < u64_mod)
unfolding compute_fee
compute_fee-ok amount rate h =
    ground (arith, ceil_div-add_pred (amount * rate) (fee_precision - rate))

pub compute_fee_from_amount-ok :
    (amount rate : ℕ) {fee : ℕ}
    → compute_fee_from_amount amount rate ≡ ok fee
    → (fee ≡ ceil_div (amount * rate) fee_precision) × (fee < u64_mod)
unfolding compute_fee_from_amount
compute_fee_from_amount-ok amount rate h =
    ground (arith, ceil_div-add_pred (amount * rate) fee_precision)

pub compute_fee_from_amount-of_lt :
    (amount rate : ℕ)
    → ceil_div (amount * rate) fee_precision < u64_mod
    → compute_fee_from_amount amount rate ≡ ok (ceil_div (amount * rate) fee_precision)
unfolding compute_fee_from_amount
compute_fee_from_amount-of_lt amount rate h =
    ground (arith, ceil_div-add_pred (amount * rate) fee_precision)

-- The rate over the whole and the rate over the rest, `d` and `r` being the two parts of the whole.
regroup :
    (a r d f : ℕ)
    → a * r ≤ f * d
    → f * d < a * r + d
    → ((a + f) * r ≤ f * (d + r)) × (f * (d + r) < (a + f) * r + (d + r))
regroup a r d f h k = omega arith

pub ceil_div-round_trip :
    (a r : ℕ)
    → r < fee_precision
    → let f = ceil_div (a * r) (fee_precision - r) in ceil_div ((a + f) * r) fee_precision ≡ f
ceil_div-round_trip a r h =
    let f = ceil_div (a * r) (fee_precision - r) in
    let (low, high) = ceil_div_bounds (a * r) (fee_precision - r) (omega arith) in
    let whole : (fee_precision - r) + r ≡ fee_precision = omega arith in
    let (low', high') = regroup a r (fee_precision - r) f low high in
    ceil_div_unique _ _ f (rw whole at low') (rw whole at high')

-- For a net amount and a rate on which `ComputeFee` succeeds, the fee that `ComputeFeeFromAmount`
-- takes from the net amount with that fee added is the same fee.
pub compute_fee_from_amount-compute_fee :
    (amount rate fee : ℕ)
    → compute_fee amount rate ≡ ok fee
    → compute_fee_from_amount (amount + fee) rate ≡ ok fee
compute_fee_from_amount-compute_fee amount rate fee h =
    let (small, e, fits) = compute_fee-ok amount rate h in
    let same : ceil_div ((amount + fee) * rate) fee_precision ≡ fee =
      rw e (ceil_div-round_trip amount rate small) in
    compute_fee_from_amount-of_lt (amount + fee) rate (rw same fits) ∙ ap ok same

pub add_u64-ok :
    (a b : ℕ) {c : ℕ} → add_u64 a b ≡ ok c → a < u64_mod → b < u64_mod → (c ≡ a + b) × (c < u64_mod)
unfolding add_u64
add_u64-ok a b h k l = ground arith

pub sub_u64-ok : (a b : ℕ) {c : ℕ} → sub_u64 a b ≡ ok c → a < u64_mod → (b ≤ a) × (c + b ≡ a)
unfolding sub_u64
sub_u64-ok a b h k = ground arith

pub compute_protocol_fee-ok :
    (fee share : ℕ) {p : ℕ}
    → compute_protocol_fee fee share ≡ ok p
    → (p ≡ fee * share / basis_point_max) × (p < u64_mod)
unfolding compute_protocol_fee
compute_protocol_fee-ok fee share h = ground arith

-- A rate below the precision leaves a fee within the amount.
pub compute_fee_from_amount-le :
    (amount rate : ℕ) {fee : ℕ}
    → compute_fee_from_amount amount rate ≡ ok fee
    → rate ≤ fee_precision
    → fee ≤ amount
compute_fee_from_amount-le amount rate h k =
    let (e, _) = compute_fee_from_amount-ok amount rate h in
    rw e (ceil_div-le (amount * rate) fee_precision amount (omega arith) (mul-le-mul_left amount k))
