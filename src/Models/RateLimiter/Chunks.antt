-- ===== src/Models/RateLimiter/Chunks.antt =====
-- models/damm_rate_limiter.go: the fee against a sum over chunks.
use soldex.Base.{
  ℕ, zero, suc, ◌+◌, ◌-◌, ◌*◌, ◌/◌, ◌%◌, ◌≤◌, ◌<◌, ◌≡◌, refl, sym, ap, ◌∙◌, inl, inr, arith, true,
  false, ◌||◌, ltb, leb, ◌==◌, if◌then◌else◌, ok, err, value_out_of_range, Bool-cases, ltb→lt,
  ltb→le, leb→le, leb→lt, ==→eq, le→leb,
}
use mathlib.Core.Path.{subst}
use native.Mathlib.Nat.{mul-le-mul_right, mod-eq-sub-div-mul}
use soldex.Base.Division.{ceil_div, div_bounds, div_unique}
use soldex.Base.Words.{max_u64}
use soldex.Models.BaseFee.{DammBaseFee, rate_limiter}
use soldex.Models.RateLimiter.{
  damm_fee_denominator, increment, max_fee, chunk_sum, climbing_total, limiter_total,
  ceil_div_fee_denominator, rate_limiter_fee,
}

-- The rate of the chunk `k`: it climbs by the increment, up to the cap.
abbrev pub capped_rate : (cliff incr cap k : ℕ) → ℕ
capped_rate cliff incr cap k = if leb (cliff + incr * k) cap then cliff + incr * k else cap

-- The fee of the first `n` chunks of the size `reference`.
unfoldable pub full_chunks : (cliff reference incr cap n : ℕ) → ℕ
full_chunks cliff reference incr cap zero = 0
full_chunks cliff reference incr cap (suc n) =
    full_chunks cliff reference incr cap n + reference * capped_rate cliff incr cap n

-- The increments of a chunk more.
triangle_step : (n : ℕ) → suc n * (suc n + 1) / 2 ≡ n * (n + 1) / 2 + (n + 1)
triangle_step n = omega arith

regroup :
    (c i n t : ℕ) → (c + c * suc n) + (t + (n + 1)) * i ≡ ((c + c * n) + t * i) + (c + i * suc n)
regroup c i n t = omega arith

chunk_sum_step : (c i n : ℕ) → chunk_sum c i (suc n) ≡ chunk_sum c i n + (c + i * suc n)
unfolding chunk_sum
chunk_sum_step c i n = rw (triangle_step n) (regroup c i n (n * (n + 1) / 2))

distribute : (r x y : ℕ) → r * x + r * y ≡ r * (x + y)
distribute r x y = omega arith

module _ (cliff reference incr cap : ℕ) (climbs : 0 < incr) (above : cliff < cap) where
  rate_below : (k : ℕ) → k ≤ (cap - cliff) / incr → capped_rate cliff incr cap k ≡ cliff + incr * k
  rate_below k h =
      let (low, high) = div_bounds (cap - cliff) incr climbs in
      let le = mul-le-mul_right incr h in
      let below : leb (cliff + incr * k) cap ≡ true = le→leb _ _ (omega arith) in rw below refl

  rate_above : (k : ℕ) → (cap - cliff) / incr < k → capped_rate cliff incr cap k ≡ cap
  rate_above k h =
      let (low, high) = div_bounds (cap - cliff) incr climbs in
      let le = mul-le-mul_right {m = (cap - cliff) / incr + 1} {n = k} incr (omega arith) in
      let over : leb (cliff + incr * k) cap ≡ false = ground arith in rw over refl

  -- Up to the last chunk before the cap, the chunks add up to the code's sum of rates.
  climb :
      (n : ℕ)
      → n ≤ (cap - cliff) / incr
      → full_chunks cliff reference incr cap (suc n) ≡ reference * chunk_sum cliff incr n
  unfolding full_chunks chunk_sum
  climb zero h = rw (rate_below 0 h) (omega arith)
  climb (suc n) h =
      rw (climb n (omega arith), rate_below (suc n) h)
        (distribute reference (chunk_sum cliff incr n) (cliff + incr * suc n)
          ∙ ap (λ t. reference * t) (sym (chunk_sum_step cliff incr n)))

  -- Past it, each chunk is charged at the cap.
  flatten :
      (d n : ℕ)
      → (cap - cliff) / incr + d ≡ n
      → full_chunks cliff reference incr cap (suc n)
        ≡ reference * chunk_sum cliff incr ((cap - cliff) / incr) + d * reference * cap
  unfolding full_chunks
  flatten zero n e =
      let last : (cap - cliff) / incr ≡ n = omega arith in
      let climbed = climb ((cap - cliff) / incr) (omega arith) in
      subst
        (λ m.
          full_chunks cliff reference incr cap (suc m)
          ≡ reference * chunk_sum cliff incr ((cap - cliff) / incr))
        last climbed
      ∙ omega arith
  flatten (suc d) zero e = absurd (omega arith)
  flatten (suc d) (suc n) e =
      rw (flatten d n (omega arith), rate_above (suc n) (omega arith)) (omega arith)

  -- The input above the reference amount: `a` chunks more, and `b` of the next.
  climbing :
      (a b : ℕ)
      → full_chunks cliff reference incr cap (suc a) + b * capped_rate cliff incr cap (suc a) ≡ (
          if ltb a ((cap - cliff) / incr)
          then reference * chunk_sum cliff incr a + b * (cliff + incr * (a + 1))
          else reference * chunk_sum cliff incr ((cap - cliff) / incr)
            + ((a - (cap - cliff) / incr) * reference + b) * cap)
  climbing a b = elim (Bool-cases (ltb a ((cap - cliff) / incr))) [
    | inl before ↦
        let less = ltb→lt _ _ before in
        rw (before, climb a (omega arith), rate_below (suc a) (omega arith)) (omega arith)
    | inr capped ↦
        let d = a - (cap - cliff) / incr in
        let le = ltb→le _ _ capped in
        let same : (cap - cliff) / incr + d ≡ a = omega arith in
        let chunks = flatten d a same in
        rw (capped, chunks, rate_above (suc a) (omega arith)) (omega arith)
  ]

-- The fee product by chunks: the whole chunks, and the rest of the input at the next rate.
unfoldable pub by_chunks : (cliff reference incr cap input : ℕ) → ℕ
by_chunks cliff reference incr cap input =
    full_chunks cliff reference incr cap (input / reference)
    + input % reference * capped_rate cliff incr cap (input / reference)

-- The quotient and the remainder of an input that is above the reference amount.
quotient_above : (input r : ℕ) → 0 < r → r < input → input / r ≡ suc ((input - r) / r)
quotient_above input r pos_r h =
    let (low, high) = div_bounds (input - r) r pos_r in
    div_unique input r (suc ((input - r) / r)) (omega arith) (omega arith)

remainder_above : (input r : ℕ) → 0 < r → r < input → input % r ≡ (input - r) % r
remainder_above input r pos_r h =
    let e = quotient_above input r pos_r h in
    mod-eq-sub-div-mul input r ∙ rw e (omega arith) ∙ sym (mod-eq-sub-div-mul (input - r) r)

ceil_div_fee_denominator-eq :
    (n : ℕ)
    → ceil_div_fee_denominator n ≡ (
        if ltb max_u64 (ceil_div n damm_fee_denominator)
        then err value_out_of_range
        else ok (ceil_div n damm_fee_denominator))
unfolding ceil_div_fee_denominator ceil_div
ceil_div_fee_denominator-eq n = refl

-- An input within the first chunk.
by_chunks-small :
    (c r i cap input : ℕ) → 0 < r → input ≤ r → c < cap → by_chunks c r i cap input ≡ input * c
unfolding by_chunks full_chunks
by_chunks-small c r i cap input pos_r h above = elim (Bool-cases (input == r)) [
  | inl same ↦
      let e = ==→eq input r same in
      let q : input / r ≡ 1 = div_unique input r 1 (omega arith) (omega arith) in
      let rem : input % r ≡ 0 = mod-eq-sub-div-mul input r ∙ rw q (omega arith) in
      let cliff : leb (c + i * 0) cap ≡ true = ground arith in rw (q, rem, cliff, e) (omega arith)
  | inr other ↦
      let less : input < r = ground arith in
      let q : input / r ≡ 0 = div_unique input r 0 (omega arith) (omega arith) in
      let rem : input % r ≡ input = mod-eq-sub-div-mul input r ∙ rw q (omega arith) in
      let cliff : leb (c + i * 0) cap ≡ true = ground arith in rw (q, rem, cliff) (omega arith)
]

limiter_total-eq-by_chunks :
    (f : DammBaseFee) (input : ℕ)
    → 0 < f.reference_amount
    → 0 < f.fee_increment_bps
    → f.cliff_fee_numerator < max_fee f
    → limiter_total f input
      ≡ by_chunks f.cliff_fee_numerator f.reference_amount (increment f) (max_fee f) input
unfolding limiter_total climbing_total chunk_sum by_chunks
limiter_total-eq-by_chunks f input pos_r climbs above =
    let c = f.cliff_fee_numerator in
    let r = f.reference_amount in
    let climbs_by : 0 < increment f = omega arith in
    let test : (r == 0 || increment f == 0 || leb (max_fee f) c) ≡ false = ground arith in
    elim (Bool-cases (leb input r)) [
      | inl small ↦
          rw (test, small)
            (sym
              (by_chunks-small c r (increment f) (max_fee f) input pos_r (leb→le _ _ small) above))
      | inr large ↦
          let more = leb→lt _ _ large in
          let q = quotient_above input r pos_r more in
          let rem = remainder_above input r pos_r more in
          rw (test, large, q, rem)
            (sym (
              climbing c r (increment f) (max_fee f) climbs_by above ((input - r) / r)
                ((input - r) % r)))
    ]

-- For a rate limiter with a reference amount, an increment and a cap above its cliff, the fee on an
-- input is that of its chunks of the reference amount, the first at the cliff and each further one at
-- a rate that is higher by the increment, up to the cap, with the rest of the input at the next rate:
-- divided by the denominator, rounded up, or the range error where that exceeds a uint64.
pub rate_limiter_fee-eq-by_chunks :
    (f : DammBaseFee) (input : ℕ)
    → f.mode ≡ rate_limiter
    → 0 < f.reference_amount
    → 0 < f.fee_increment_bps
    → f.cliff_fee_numerator < max_fee f
    → (let fee =
          ceil_div
            (by_chunks f.cliff_fee_numerator f.reference_amount (increment f) (max_fee f) input)
            damm_fee_denominator in
        rate_limiter_fee f input ≡ (if ltb max_u64 fee then err value_out_of_range else ok fee))
unfolding rate_limiter_fee
rate_limiter_fee-eq-by_chunks f input mode pos_r climbs above =
    let test : (f.mode == rate_limiter) ≡ true = ground arith in
    rw (test, limiter_total-eq-by_chunks f input pos_r climbs above) (ceil_div_fee_denominator-eq _)
