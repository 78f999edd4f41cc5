-- ===== src/Quote/Orca/Adaptive/Bounds.antt =====
-- quote/orca/adaptive_fee.go: the accumulator and the reference stay within the maximum, and the fee
-- within its limit.
use soldex.Base.{
  ℕ, ◌+◌, ◌-◌, ◌*◌, ◌/◌, ◌^◌, ◌≤◌, ◌<◌, ◌≡◌, refl, sym, ◌⊎◌, inl, inr, arith, some, ltb, ◌==◌,
  if◌then◌else◌, Bool-cases, ==→eq,
}
use mathlib.Core.Path.{subst}
use native.Mathlib.Nat.{mul-le-mul_left}
use soldex.Base.{some-injective}
use soldex.Base.Int.{ℤ}
use soldex.Base.Division.{ceil_div, ceil_div_unique, div_bounds, le_of_scaled}
use soldex.Quote.Orca.Adaptive.{
  AdaptiveFeeConstants, AdaptiveFeeVariables, reduction_factor_denominator, fee_rate_hard_limit,
  ceil_division_u32, move_reference, last_timestamp, decayed_volatility, update_reference,
  update_volatility_accumulator, compute_adaptive_fee_rate,
}

-- The volatility is at most the maximum.
pub record IsBounded (c : AdaptiveFeeConstants) (v : AdaptiveFeeVariables) : Type 0 where
  pub accumulator : v.volatility_accumulator ≤ c.max_volatility_accumulator
  pub reference : v.volatility_reference ≤ c.max_volatility_accumulator

-- The code's test of the remainder rounds up.
pub rounded_up : (n d : ℕ) → 0 < d → (if n / d * d == n then n / d else n / d + 1) ≡ ceil_div n d
rounded_up n d h =
    let (low, high) = div_bounds n d h in
    elim (Bool-cases (n / d * d == n)) [
      | inl exact ↦
          let e = ==→eq _ _ exact in
          rw exact (sym (ceil_div_unique n d (n / d) (omega (arith, e)) (omega (arith, e, h))))
      | inr rest ↦
          let less : n / d * d < n = ground arith in
          rw rest
            (sym (ceil_div_unique n d (n / d + 1) (omega (arith, high)) (omega (arith, less))))
    ]

pub ceil_division_u32-eq-ceil_div : (n d : ℕ) → 0 < d → ceil_division_u32 n d ≡ ceil_div n d
unfolding ceil_division_u32
ceil_division_u32-eq-ceil_div n d h = rounded_up n d h

pub update_volatility_accumulator-IsBounded :
    (c : AdaptiveFeeConstants) (v : AdaptiveFeeVariables) (index : ℤ)
    → IsBounded c v
    → IsBounded c (update_volatility_accumulator v index c)
unfolding update_volatility_accumulator
update_volatility_accumulator-IsBounded c v index h = record {
  accumulator = ground arith;
  reference = h.reference;
}

decayed_volatility-le :
    (c : AdaptiveFeeConstants) (v : AdaptiveFeeVariables)
    → c.reduction_factor ≤ reduction_factor_denominator
    → decayed_volatility v c ≤ v.volatility_accumulator
unfolding decayed_volatility
decayed_volatility-le c v h =
    let a = v.volatility_accumulator in
    let (low, _) = div_bounds (a * c.reduction_factor) reduction_factor_denominator (omega arith) in
    let up = mul-le-mul_left a h in
    let scaled =
      le_of_scaled (a * c.reduction_factor / reduction_factor_denominator) a
        reduction_factor_denominator (omega (arith, low, up)) in
    omega (arith, scaled)

-- The reference is kept, or set to the index and the time with what is left of the accumulator.
pub update_reference-cases :
    (c : AdaptiveFeeConstants) (v : AdaptiveFeeVariables) (index : ℤ) (timestamp : ℕ)
    {v' : AdaptiveFeeVariables}
    → update_reference v index timestamp c ≡ some v'
    → (last_timestamp v ≤ timestamp)
      × ((v' ≡ v)
          ⊎ ((volatility : ℕ) × (volatility ≤ decayed_volatility v c)
              × (v' ≡ move_reference v index volatility timestamp)))
unfolding update_reference
update_reference-cases c v index timestamp run =
    let latest = last_timestamp v in
    elim (Bool-cases (ltb timestamp latest)) [
      | inl early ↦ absurd (let same = rw (update_reference, early) at run in cc)
      | inr late ↦
          let in_order : latest ≤ timestamp = ground arith in
          elim (Bool-cases (ltb 3_600 (timestamp - v.last_reference_update_timestamp))) [
            | inl old ↦
                (in_order, inr (0, omega arith, sym (some-injective (rw (late, old) at run))))
            | inr fresh ↦ elim (Bool-cases (ltb (timestamp - latest) c.filter_period)) [
              | inl soon ↦ (in_order, inl (sym (some-injective (rw (late, fresh, soon) at run))))
              | inr later ↦ elim (Bool-cases (ltb (timestamp - latest) c.decay_period)) [
                | inl decays ↦ (
                  in_order,
                  inr (
                    decayed_volatility v c,
                    omega arith,
                    sym (some-injective (rw (late, fresh, later, decays) at run)),
                  ),
                )
                | inr gone ↦ (
                  in_order,
                  inr (0, omega arith, sym (some-injective (rw (late, fresh, later, gone) at run))),
                )
              ]
            ]
          ]
    ]

-- With a reduction factor of at most one, setting the reference at any time keeps it, and the
-- accumulator, within the maximum; it succeeds only at a time that no update is after.
pub update_reference-IsBounded :
    (c : AdaptiveFeeConstants) (v : AdaptiveFeeVariables) (index : ℤ) (timestamp : ℕ)
    {v' : AdaptiveFeeVariables}
    → c.reduction_factor ≤ reduction_factor_denominator
    → IsBounded c v
    → update_reference v index timestamp c ≡ some v'
    → IsBounded c v' × (last_timestamp v ≤ timestamp) × (last_timestamp v' ≤ timestamp)
unfolding move_reference last_timestamp
update_reference-IsBounded c v index timestamp decays h run =
    let (in_order, same) = update_reference-cases c v index timestamp run in
    let Good : AdaptiveFeeVariables → Type 0 =
      λ u. IsBounded c u × (last_timestamp v ≤ timestamp) × (last_timestamp u ≤ timestamp) in
    elim same [
      | inl kept ↦ subst Good (sym kept) (h, in_order, in_order)
      | inr (volatility, small, moved) ↦ subst Good (sym moved) (
        record {
          accumulator = h.accumulator;
          reference = omega (arith, small, decayed_volatility-le c v decays, h.accumulator);
        },
        in_order,
        ground arith,
      )
    ]

-- The rate is the quotient rounded up, cut off at the limit.
pub compute_adaptive_fee_rate-eq-ceil_div :
    (c : AdaptiveFeeConstants) (v : AdaptiveFeeVariables)
    → (let crossed = v.volatility_accumulator * c.tick_group_size in
        let rate = ceil_div (c.adaptive_fee_control_factor * (crossed * crossed)) (10 ^ 13) in
        compute_adaptive_fee_rate c v
        ≡ (if ltb fee_rate_hard_limit rate then fee_rate_hard_limit else rate))
unfolding compute_adaptive_fee_rate
compute_adaptive_fee_rate-eq-ceil_div c v =
    let crossed = v.volatility_accumulator * c.tick_group_size in
    rw (rounded_up (c.adaptive_fee_control_factor * (crossed * crossed)) (10 ^ 13) (omega arith))
      refl
