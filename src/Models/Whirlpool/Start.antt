-- ===== src/Models/Whirlpool/Start.antt =====
-- models/whirlpool.go: the start index is that of the array that holds the tick.
use soldex.Base.{
  ℕ, zero, suc, ◌+◌, ◌*◌, ◌/◌, ◌%◌, ◌^◌, ◌≤◌, ◌<◌, ◌≡◌, refl, sym, ap, ◌∙◌, inl, inr, arith, true,
  false, ltb, ◌==◌, ok, Bool-cases, ==→eq,
}
use native.Mathlib.Nat.{div-add-mod}
use soldex.Base.Int.{
  ℤ, pos, negsuc, pos_part, neg_part, nat_abs, sub_ℕ, ◌-ℤ◌, quot, rem_abs, wrap_i32, wrap_i32_id,
}
use soldex.Base.Division.{div_bounds}
use soldex.Math.Raydium.Tick.{scale_ℤ}
use soldex.Models.Whirlpool.{span_of, start_of, tick_array_start_index}

-- The array with the start holds the tick, and the start is a multiple of the span.
pub record Holds (span : ℕ) (start tick : ℤ) : Type 0 where
  pub from_start : pos_part start + neg_part tick ≤ pos_part tick + neg_part start
  pub before_end : pos_part tick + neg_part start < pos_part start + neg_part tick + span
  pub whole : (k : ℕ) × (nat_abs start ≡ k * span)

-- A negative multiple.
scale_negative : (q span : ℕ) → scale_ℤ (sub_ℕ 0 q) span ≡ sub_ℕ 0 (q * span)
unfolding scale_ℤ
scale_negative zero span = let none_of : 0 * span ≡ 0 = omega arith in rw none_of refl
scale_negative (suc q) span = ground arith

wrap_negative : (n : ℕ) → n ≤ 2 ^ 31 → wrap_i32 (sub_ℕ 0 n) ≡ sub_ℕ 0 n
wrap_negative n h = wrap_i32_id (sub_ℕ 0 n) (ground arith)

Holds-negative :
    (n q span : ℕ)
    → suc n ≤ q * span
    → q * span < suc n + span
    → Holds span (sub_ℕ 0 (q * span)) (negsuc n)
Holds-negative n q span low high = record {
  from_start = ground arith;
  before_end = ground arith;
  whole = (q, ground arith);
}

less_one : (q : ℕ) → sub_ℕ 0 q -ℤ pos 1 ≡ sub_ℕ 0 (q + 1)
unfolding ◌-ℤ◌
less_one q = ground arith

start_of-pos : (n span : ℕ) → start_of (pos n) span ≡ pos (n / span)
unfolding start_of quot
start_of-pos n span = let test : ltb (n + 0) 0 ≡ false = ground arith in rw test refl

pos_rest : (m k span : ℕ) → k ≡ m → (k % span) == 0 ≡ false → 0 < m % span
pos_rest m k span e h = let other : (m % span) == 0 ≡ false = rw e at h in ground arith

-- Of a negative tick, it is the quotient rounded up, negated.
start_of-negative :
    (n span : ℕ)
    → 0 < span
    → (q : ℕ) × (start_of (negsuc n) span ≡ sub_ℕ 0 q)
      × (suc n ≤ q * span)
      × (q * span < suc n + span)
unfolding start_of quot rem_abs ◌-ℤ◌
start_of-negative n span positive =
    let (low, high) = div_bounds (suc n) span positive in
    let whole : 0 + suc n ≡ suc n = omega arith in
    let parts = div-add-mod (suc n) span in
    let test : ltb 0 (0 + suc n) ≡ true = ground arith in
    elim (Bool-cases (((0 + suc n) % span) == 0)) [
      | inl exact ↦ (
        suc n / span,
        rw (test, exact) refl,
        (let e : suc n % span ≡ 0 = ap (λ m. m % span) (sym whole) ∙ ==→eq _ _ exact in
            omega (arith, parts, e)),
        omega (arith, low),
      )
      | inr rest ↦ (
        suc n / span + 1,
        rw (test, rest) (less_one (suc n / span)),
        omega (arith, high),
        (let left : 0 < suc n % span = pos_rest (suc n) (0 + suc n) span whole rest in
            omega (arith, parts, left)),
      )
    ]

-- For a spacing that is a uint16 and not zero and a tick in range, the start index exists, and its array
-- holds the tick.
pub tick_array_start_index-Holds :
    (tick : ℤ) (spacing : ℕ)
    → nat_abs tick < 2 ^ 30
    → 0 < spacing
    → spacing < 2 ^ 16
    → (start : ℤ) × (tick_array_start_index tick spacing ≡ ok start)
      × Holds (span_of spacing) start tick
unfolding tick_array_start_index scale_ℤ
tick_array_start_index-Holds (pos n) spacing range positive word =
    let span = span_of spacing in
    let (low, high) = div_bounds n span (omega arith) in
    let some_span : span == 0 ≡ false = ground arith in
    (
      pos (n / span * span),
      rw (some_span, start_of-pos n span)
          (ap ok (wrap_i32_id (pos (n / span * span)) (omega (arith, low)))),
      record {
        from_start = omega (arith, low);
        before_end = omega (arith, high);
        whole = (n / span, omega arith);
      },
    )
tick_array_start_index-Holds (negsuc n) spacing range positive word =
    let span = span_of spacing in
    let some_span : span == 0 ≡ false = ground arith in
    let (q, same, low, high) = start_of-negative n span (omega arith) in
    (
      sub_ℕ 0 (q * span),
      rw (some_span, same, scale_negative q span)
          (ap ok (wrap_negative (q * span) (omega (arith, high)))),
      Holds-negative n q span low high,
    )
