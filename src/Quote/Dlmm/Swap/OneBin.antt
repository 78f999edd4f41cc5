-- ===== src/Quote/Dlmm/Swap/OneBin.antt =====
-- quote/dlmm/swap_quote.go: what `swapAtBin` draws and pays.
use mathlib.Core.Path.{subst}
use soldex.Base.{
  ℕ, zero, suc, ◌+◌, ◌-◌, ◌*◌, ◌≤◌, ◌<◌, ◌≡◌, inl, inr, arith, Bool, true, false, not, leb, ◌==◌,
  ok, >>=-eq-ok, ok-injective, Bool-cases, leb→le, leb→lt,
}
use native.Mathlib.Nat.{mul-le-mul_right}
use soldex.Base.Words.{u64_mod, sub_wrap_exact, add_wrap_exact}
use soldex.Base.Division.{ceil_div_bounds, ceil_div-le}
use soldex.Math.Common.{nat}
use soldex.Quote.Dlmm.Fees.{compute_fee, compute_fee_from_amount, fee_precision, max_fee_rate}
use soldex.Quote.Dlmm.Fees.RoundTrip.{
  compute_fee-ok, compute_fee_from_amount-ok, compute_fee_from_amount-le,
}
use soldex.Quote.Dlmm.Bin.{
  get_max_amount_in, get_amount_in_from_amount_out, get_amount_out_from_amount_in,
}
use soldex.Quote.Dlmm.Bin.Price.{
  Pays, get_max_amount_in-ok, get_amount_out-ok, Pays-le, Pays-mono, get_amount_out-le,
}
use soldex.Quote.Dlmm.Pool.{SwapPool, total_fee_rate}
use soldex.Quote.Dlmm.Swap.{exclude_fee, fill_at_bin, include_fee, swap_at_bin}

pub total_fee_rate-le : (pool : SwapPool) → total_fee_rate pool ≤ max_fee_rate
unfolding total_fee_rate
total_fee_rate-le pool = ground arith

-- What is left after the fee, and what the fee is at least.
exclude_fee-ok :
    (b : Bool) (amount rate : ℕ) {net : ℕ}
    → exclude_fee b amount rate ≡ ok net
    → amount < u64_mod
    → rate ≤ max_fee_rate
    → net ≤ amount
unfolding exclude_fee
exclude_fee-ok false amount rate h k l = ground arith
exclude_fee-ok true amount rate h k l =
    let (fee, e, g) = >>=-eq-ok (compute_fee_from_amount amount rate) _ h in
    let le = compute_fee_from_amount-le amount rate e (omega arith) in
    omega (arith, ok-injective g, sub_wrap_exact amount fee le k)

-- The net input, scaled by the precision.
exclude_fee-scaled :
    (amount rate : ℕ) {net : ℕ}
    → exclude_fee true amount rate ≡ ok net
    → amount < u64_mod
    → rate ≤ max_fee_rate
    → net * fee_precision + amount * rate ≤ amount * fee_precision
unfolding exclude_fee
exclude_fee-scaled amount rate h k l =
    let (fee, e, g) = >>=-eq-ok (compute_fee_from_amount amount rate) _ h in
    let le = compute_fee_from_amount-le amount rate e (omega arith) in
    let (value, _) = compute_fee_from_amount-ok amount rate e in
    let (low, _) = ceil_div_bounds (amount * rate) fee_precision (omega arith) in
    omega (arith, ok-injective g, sub_wrap_exact amount fee le k)

-- A bin gives at most what it holds, and leaves at most what it was given.
abbrev Leaves : (excluded max_out price : ℕ) → Bool → ℕ × ℕ → Type 0
Leaves excluded max_out price swap_for_y r =
    (r.0 ≤ max_out) × (r.1 ≤ excluded) × Pays swap_for_y price (excluded - r.1) r.0

fill_at_bin-Leaves :
    (excluded max_in max_out price : ℕ) (swap_for_y : Bool) {r : ℕ × ℕ}
    → get_max_amount_in max_out (nat price) swap_for_y ≡ ok max_in
    → fill_at_bin excluded max_in max_out (nat price) swap_for_y ≡ ok r
    → Leaves excluded max_out price swap_for_y r
unfolding fill_at_bin
fill_at_bin-Leaves excluded max_in max_out price swap_for_y {r} h k =
    elim (Bool-cases (leb max_in excluded)) [
      | inl full ↦
          let le = leb→le max_in excluded full in
          let (pays, _) = get_max_amount_in-ok max_out price swap_for_y h in
          let same : max_in ≡ excluded - (excluded - max_in) = omega arith in
          subst (Leaves excluded max_out price swap_for_y) (ok-injective (rw full at k))
            (omega arith, omega arith, rw same at pays)
      | inr short ↦
          let (out, e, g) =
            >>=-eq-ok (get_amount_out_from_amount_in excluded (nat price) swap_for_y) _
              (rw short at k) in
          let (pays, _) = get_amount_out-ok excluded price swap_for_y e in
          let same : excluded ≡ excluded - 0 = omega arith in
          subst (Leaves excluded max_out price swap_for_y) (ok-injective g) (
            get_amount_out-le max_out price excluded swap_for_y h e (leb→lt _ _ short),
            omega arith,
            subst (λ n. Pays swap_for_y price n out) same pays,
          )
    ]

-- With c + b the amount and d + r the precision.
gross_up : (c e b d r : ℕ) → c ≤ e → e * (d + r) + (c + b) * r ≤ (c + b) * (d + r) → c * r ≤ b * d
gross_up c e b d r h k = omega (arith, mul-le-mul_right (d + r) h)

suc-eq-zero : (n : ℕ) → (suc n == 0) ≡ false
suc-eq-zero n = ground arith

-- The input drawn covers what the bin took, and is at most the amount.
include_fee-ok :
    (amount excluded leftover : ℕ) (b : Bool) (rate : ℕ) {drawn : ℕ}
    → exclude_fee b amount rate ≡ ok excluded
    → include_fee amount excluded leftover b rate ≡ ok drawn
    → amount < u64_mod
    → rate ≤ max_fee_rate
    → leftover ≤ excluded
    → (excluded - leftover ≤ drawn) × (drawn ≤ amount)
unfolding include_fee
include_fee-ok amount excluded zero b rate h k fits r l =
    omega (arith, exclude_fee-ok b amount rate h fits r, ok-injective k)
include_fee-ok amount excluded (suc left) false rate h k fits r l =
    omega
      (arith, exclude_fee-ok false amount rate h fits r, ok-injective (rw (suc-eq-zero left) at k))
include_fee-ok amount excluded (suc left) true rate h k fits r l =
    let consumed = excluded - suc left in
    let (fee, e, g) = >>=-eq-ok (compute_fee consumed rate) _ (rw (suc-eq-zero left) at k) in
    let (_, value, _) = compute_fee-ok consumed rate e in
    let le = exclude_fee-ok true amount rate h fits r in
    let rest = amount - consumed in
    let sum : consumed + rest ≡ amount = omega arith in
    let whole : (fee_precision - rate) + rate ≡ fee_precision = omega arith in
    let scaled =
      gross_up consumed excluded rest (fee_precision - rate) rate (omega arith)
        (rw (sum, whole) (exclude_fee-scaled amount rate h fits r)) in
    let small = ceil_div-le (consumed * rate) (fee_precision - rate) rest (omega arith) scaled in
    omega (arith, ok-injective g, add_wrap_exact consumed fee (omega arith))

-- A successful swap against one bin, of a uint64 amount and reserve and a price: the input it draws is
-- at most the amount offered, the output at most the reserve, and the input is worth at least the
-- output at the price, whichever side the fee is on.
pub swap_at_bin-Pays :
    (pool : SwapPool) (amount_in max_out price : ℕ) (swap_for_y fee_on_input : Bool) {r : ℕ × ℕ}
    → amount_in < u64_mod
    → max_out < u64_mod
    → swap_at_bin pool amount_in max_out (nat price) swap_for_y fee_on_input ≡ ok r
    → (r.0 ≤ amount_in) × (r.1 ≤ max_out) × Pays swap_for_y price r.0 r.1
unfolding swap_at_bin get_amount_in_from_amount_out
swap_at_bin-Pays pool amount_in max_out price swap_for_y fee_on_input {r} ha hm h =
    let rate = total_fee_rate pool in
    let small = total_fee_rate-le pool in
    let (net, e₁, h₁) = >>=-eq-ok (exclude_fee fee_on_input amount_in rate) _ h in
    let (max_in, e₂, h₂) = >>=-eq-ok (get_max_amount_in max_out (nat price) swap_for_y) _ h₁ in
    let (f, e₃, h₃) = >>=-eq-ok (fill_at_bin net max_in max_out (nat price) swap_for_y) _ h₂ in
    let (drawn, e₄, h₄) = >>=-eq-ok (include_fee amount_in net f.1 fee_on_input rate) _ h₃ in
    let (out, e₅, h₅) = >>=-eq-ok (exclude_fee (not fee_on_input) f.0 rate) _ h₄ in
    let (within, left, pays) = fill_at_bin-Leaves net max_in max_out price swap_for_y e₂ e₃ in
    let (covers, fits) = include_fee-ok amount_in net f.1 fee_on_input rate e₁ e₄ ha small left in
    let less = exclude_fee-ok (not fee_on_input) f.0 rate e₅ (omega arith) small in
    subst (λ (s : ℕ × ℕ). (s.0 ≤ amount_in) × (s.1 ≤ max_out) × Pays swap_for_y price s.0 s.1)
      (ok-injective h₅)
      (
        fits,
        omega arith,
        Pays-mono swap_for_y price (net - f.1) drawn out covers
            (Pays-le swap_for_y price (net - f.1) f.0 out pays less),
      )
