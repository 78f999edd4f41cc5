-- ===== src/Quote/Damm/Fees/Split.antt =====
-- quote/damm/fees.go: the parts that `SplitTradingFees` and `GetFeeOnAmount` return add up to what
-- they split.
use mathlib.Core.Path.{subst}
use native.Mathlib.Nat.{mul-le-mul_left}
use soldex.Base.{
  ℕ, ◌+◌, ◌*◌, ◌/◌, ◌≤◌, ◌<◌, ◌≡◌, inl, inr, arith, Bool, true, false, ◌==◌, ok, >>=-eq-ok,
  ok-injective, Bool-cases,
}
use soldex.Base.Words.{u64_mod, sub_wrap, sub_wrap_exact}
use soldex.Base.Division.{ceil_div, ceil_div-le}
use soldex.Math.Damm.MulDiv.{rounding_up, rounding_down}
use soldex.Math.Damm.Cast.{safe_mul_div_cast_u64}
use soldex.Math.Damm.Cast.Rounds.{safe_mul_div_cast_u64-ok}
use soldex.Quote.Damm.Fees.{
  SplitFees, FeeOnAmountResult, fee_denominator, max_basis_point, get_excluded_fee_amount,
  compounding_share, referral_share, split_trading_fees, get_fee_on_amount,
}

-- A share of at most the whole, rounded down, is at most the whole.
share-le : (fee part whole : ℕ) → 0 < whole → part ≤ whole → fee * part / whole ≤ fee
share-le fee part whole h k = grind arith

compounding_share-le :
    (fee bps : ℕ) {v : ℕ} → compounding_share fee bps ≡ ok v → bps ≤ max_basis_point → v ≤ fee
unfolding compounding_share
compounding_share-le fee bps {v} h k = elim (Bool-cases (bps == 0)) [
  | inl zero_bps ↦ ground arith
  | inr nonzero ↦
      let (_, e, _) =
        safe_mul_div_cast_u64-ok fee bps max_basis_point rounding_down (rw nonzero at h) in
      rw e (share-le fee bps max_basis_point (omega arith) k)
]

referral_share-le :
    (fee percent : ℕ) (has_referral : Bool) {v : ℕ}
    → referral_share fee percent has_referral ≡ ok v
    → percent ≤ 100
    → v ≤ fee
unfolding referral_share
referral_share-le fee percent true {v} h k =
    let (_, e, _) = safe_mul_div_cast_u64-ok fee percent 100 rounding_down h in
    rw e (share-le fee percent 100 (omega arith) k)
referral_share-le fee percent false h k = ground arith

-- The four parts of a fee, and the protocol's part before the referral takes its own.
pub record IsSplit (fee protocol_fee_percent : ℕ) (s : SplitFees) : Type 0 where
  pub whole : s.claiming_fee + s.compounding_fee + s.protocol_fee + s.referral_fee ≡ fee
  pub protocol : s.protocol_fee + s.referral_fee ≡ fee * protocol_fee_percent / 100

-- A fee that is a uint64, with percentages of at most 100 and at most 10000 basis points, is split
-- without loss: the parts for claiming, compounding, protocol and referral add up to it, and the
-- last two to the protocol's percentage of it, rounded down.
split_trading_fees-IsSplit :
    (fee protocol_fee_percent compounding_fee_bps referral_fee_percent : ℕ) (has_referral : Bool)
    {s : SplitFees}
    → fee < u64_mod
    → protocol_fee_percent ≤ 100
    → compounding_fee_bps ≤ max_basis_point
    → referral_fee_percent ≤ 100
    → split_trading_fees fee protocol_fee_percent compounding_fee_bps referral_fee_percent
        has_referral
      ≡ ok s
    → IsSplit fee protocol_fee_percent s
unfolding split_trading_fees
split_trading_fees-IsSplit fee pp bps rp has_referral {s} fits hp hb hr h =
    let (p, e₁, h₁) = >>=-eq-ok (safe_mul_div_cast_u64 64 fee pp 100 rounding_down) _ h in
    let (c, e₂, h₂) = >>=-eq-ok (compounding_share (sub_wrap fee p) bps) _ h₁ in
    let (r, e₃, h₃) = >>=-eq-ok (referral_share p rp has_referral) _ h₂ in
    let (_, share, small) = safe_mul_div_cast_u64-ok fee pp 100 rounding_down e₁ in
    let p_le : p ≤ fee = rw share (share-le fee pp 100 (omega arith) hp) in
    let rest = sub_wrap_exact fee p p_le fits in
    let c_le = compounding_share-le (sub_wrap fee p) bps e₂ hb in
    let r_le = referral_share-le p rp has_referral e₃ hr in
    let claim = sub_wrap_exact (sub_wrap fee p) c c_le (omega arith) in
    let protocol = sub_wrap_exact p r r_le small in
    subst (IsSplit fee pp) (ok-injective h₃)
      (record { whole = omega arith; protocol = omega arith })

pub get_excluded_fee_amount-ok :
    (rate amount : ℕ) {p : ℕ × ℕ}
    → get_excluded_fee_amount rate amount ≡ ok p
    → amount < u64_mod
    → rate ≤ fee_denominator
    → (p.1 ≡ ceil_div (amount * rate) fee_denominator) × (p.0 + p.1 ≡ amount) × (p.1 < u64_mod)
unfolding get_excluded_fee_amount
get_excluded_fee_amount-ok rate amount {p} h fits hn =
    let (fee, e, h₁) =
      >>=-eq-ok (safe_mul_div_cast_u64 64 amount rate fee_denominator rounding_up) _ h in
    let (_, charged, small) = safe_mul_div_cast_u64-ok amount rate fee_denominator rounding_up e in
    let le : fee ≤ amount = rw charged (
      ceil_div-le (amount * rate) fee_denominator amount (omega arith)
        (mul-le-mul_left amount hn)) in
    subst
      (λ q.
        (q.1 ≡ ceil_div (amount * rate) fee_denominator) × (q.0 + q.1 ≡ amount) × (q.1 < u64_mod))
      (ok-injective h₁) (charged, omega (arith, sub_wrap_exact amount fee le fits), small)

-- What `GetFeeOnAmount` returns for an amount and a fee rate.
pub record TakesFee (amount trade_fee_numerator protocol_fee_percent : ℕ) (r : FeeOnAmountResult)
    : Type 0 where
  pub fee : ℕ
  pub charged : fee ≡ ceil_div (amount * trade_fee_numerator) fee_denominator
  pub whole : r.amount + fee ≡ amount
  pub split : IsSplit fee protocol_fee_percent r.split

-- The fee on a uint64 amount, at a rate of at most the denominator and with percentages of at most
-- 100 and at most 10000 basis points: it is the amount times the rate, rounded up; the amount returned
-- and the fee add up to the amount given; and the four parts add up to the fee.
pub get_fee_on_amount-TakesFee :
    (amount trade_fee_numerator protocol_fee_percent compounding_fee_bps referral_fee_percent : ℕ)
    (has_referral : Bool) {r : FeeOnAmountResult}
    → amount < u64_mod
    → trade_fee_numerator ≤ fee_denominator
    → protocol_fee_percent ≤ 100
    → compounding_fee_bps ≤ max_basis_point
    → referral_fee_percent ≤ 100
    → get_fee_on_amount amount trade_fee_numerator protocol_fee_percent compounding_fee_bps
        referral_fee_percent has_referral
      ≡ ok r
    → TakesFee amount trade_fee_numerator protocol_fee_percent r
unfolding get_fee_on_amount
get_fee_on_amount-TakesFee amount rate pp bps rp has_referral {r} fits hn hp hb hr h =
    let (p, e₁, h₁) = >>=-eq-ok (get_excluded_fee_amount rate amount) _ h in
    let (s, e₂, h₂) = >>=-eq-ok (split_trading_fees (p.1) pp bps rp has_referral) _ h₁ in
    let (charged, whole, small) = get_excluded_fee_amount-ok rate amount e₁ fits hn in
    subst (TakesFee amount rate pp) (ok-injective h₂) (record {
      fee = p.1;
      charged = charged;
      whole = whole;
      split = split_trading_fees-IsSplit (p.1) pp bps rp has_referral small hp hb hr e₂;
    })
