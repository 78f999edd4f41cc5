-- ===== src/Quote/Orca/FeeManager/Flat.antt =====
-- quote/orca/fee_rate_manager.go: where a step may be skipped the rate is flat, and every rate is within
-- the limit.
use soldex.Base.{
  ℕ, ◌*◌, ◌^◌, ◌≤◌, ◌<◌, ◌≡◌, refl, sym, ◌∙◌, ◌⊎◌, inl, inr, arith, Bool, true, false, ◌||◌, none,
  some, ◌==◌, if◌then◌else◌, Bool-cases, ==→eq,
}
use soldex.Base.Int.{ℤ, pos, ◌+ℤ◌, ltb_ℤ, wrap_i32}
use soldex.Base.Words.{u32_mod}
use soldex.Math.Raydium.Tick.{scale_ℤ}
use soldex.Math.Orca.Tick.{min_tick_index, max_tick_index, sqrt_price_from_tick_index}
use soldex.Base.Division.{ceil_div, ceil_div-le}
use soldex.Quote.Orca.Adaptive.{
  AdaptiveFeeConstants, AdaptiveFeeVariables, fee_rate_hard_limit, group_distance,
  update_volatility_accumulator, compute_adaptive_fee_rate,
}
use soldex.Quote.Orca.Adaptive.Bounds.{compute_adaptive_fee_rate-eq-ceil_div}
use soldex.Quote.Orca.FeeManager.{
  FeeRateManager, max_delta, lower_index, upper_index, lower_bound, upper_bound, adaptive_manager,
  accumulate_at, total_fee_rate, is_below, is_above, TickGroupBound, bounded_sqrt_price_target,
}
use soldex.Quote.Orca.FeeManager.Core.{
  IsGroup, max_delta-covers, saturated, beyond_above, beyond_below,
}

or_true : (a b : Bool) → (a || b) ≡ true → (a ≡ true) ⊎ (b ≡ true)
or_true a b h = ground arith

below_some :
    (t : Bool) (b : TickGroupBound) (i : ℤ)
    → is_below i (if t then some b else none) ≡ true
    → ltb_ℤ i b.index ≡ true
unfolding is_below
below_some true b i h = h
below_some false b i h = cc

above_some :
    (t : Bool) (b : TickGroupBound) (i : ℤ)
    → is_above i (if t then some b else none) ≡ true
    → ltb_ℤ b.index i ≡ true
unfolding is_above
above_some true b i h = h
above_some false b i h = cc

-- The surcharge depends on the accumulator only.
same_surcharge :
    (c : AdaptiveFeeConstants) (v u : AdaptiveFeeVariables)
    → v.volatility_accumulator ≡ u.volatility_accumulator
    → compute_adaptive_fee_rate c v ≡ compute_adaptive_fee_rate c u
unfolding compute_adaptive_fee_rate
same_surcharge c v u e = rw e refl

no_surcharge :
    (c : AdaptiveFeeConstants) (v : AdaptiveFeeVariables)
    → c.adaptive_fee_control_factor ≡ 0
    → compute_adaptive_fee_rate c v ≡ 0
no_surcharge c v e =
    let crossed = v.volatility_accumulator * c.tick_group_size in
    let zero_num : c.adaptive_fee_control_factor * (crossed * crossed) ≡ 0 = rw e (omega arith) in
    let low : ceil_div (c.adaptive_fee_control_factor * (crossed * crossed)) (10 ^ 13) ≤ 0 =
      ceil_div-le (c.adaptive_fee_control_factor * (crossed * crossed)) (10 ^ 13) 0 (omega arith)
        (omega (arith, zero_num)) in
    compute_adaptive_fee_rate-eq-ceil_div c v ∙ ground arith

surcharge-le :
    (c : AdaptiveFeeConstants) (v : AdaptiveFeeVariables)
    → compute_adaptive_fee_rate c v ≤ fee_rate_hard_limit
unfolding compute_adaptive_fee_rate
surcharge-le c v = ground arith

-- A manager at a tick group, with the accumulator of that group.
abbrev pub at_group : FeeRateManager → ℤ → FeeRateManager
at_group m i = accumulate_at (record m { tick_group_index = i }) i

abbrev is_beyond : FeeRateManager → ℤ → Bool
is_beyond m i = is_below i m.core_lower || is_above i m.core_upper

module _ (z : Bool) (group : ℤ) (rate : ℕ) (c : AdaptiveFeeConstants) (v : AdaptiveFeeVariables)
    (small : c.max_volatility_accumulator < u32_mod)
    (bounded : v.volatility_reference ≤ c.max_volatility_accumulator)
    (reference : IsGroup v.tick_group_index_reference) where
  far_below :
      (i : ℤ)
      → IsGroup i
      → is_below i (lower_bound c v) ≡ true
      → max_delta c v < group_distance v.tick_group_index_reference i
  unfolding lower_bound lower_index
  far_below i hi h =
      let tick = wrap_i32 (scale_ℤ (lower_index c v) c.tick_group_size) in
      let (fits, _) = max_delta-covers c v small bounded in
      beyond_below v.tick_group_index_reference i (max_delta c v) reference hi fits (
        below_some (ltb_ℤ min_tick_index tick)
          (record { index = lower_index c v; sqrt_price = sqrt_price_from_tick_index tick }) i h)

  far_above :
      (i : ℤ)
      → IsGroup i
      → is_above i (upper_bound c v) ≡ true
      → max_delta c v < group_distance v.tick_group_index_reference i
  unfolding upper_bound upper_index
  far_above i hi h =
      let tick =
        wrap_i32
          (wrap_i32 (scale_ℤ (upper_index c v) c.tick_group_size) +ℤ pos c.tick_group_size) in
      let (fits, _) = max_delta-covers c v small bounded in
      beyond_above v.tick_group_index_reference i (max_delta c v) reference hi fits (
        above_some (ltb_ℤ tick max_tick_index)
          (record { index = upper_index c v; sqrt_price = sqrt_price_from_tick_index tick }) i h)

  -- Beyond the core range the accumulator is at its maximum.
  beyond_max :
      (i : ℤ)
      → IsGroup i
      → is_beyond (adaptive_manager z group rate c v) i ≡ true
      → (update_volatility_accumulator v i c).volatility_accumulator ≡ c.max_volatility_accumulator
  unfolding adaptive_manager
  beyond_max i hi h =
      saturated c v i small bounded (elim (or_true _ _ h) [
        | inl below ↦ far_below i hi below
        | inr above ↦ far_above i hi above
      ])

  -- The code's test for a skip, for liquidity that is not zero.
  skips_when :
      (i : ℤ) (target liquidity : ℕ)
      → 0 < liquidity
      → (bounded_sqrt_price_target
          (at_group (adaptive_manager z group rate c v) i)
          target
          liquidity).1
        ≡ true
      → (c.adaptive_fee_control_factor ≡ 0)
        ⊎ (is_beyond (adaptive_manager z group rate c v) i ≡ true)
  unfolding bounded_sqrt_price_target adaptive_manager accumulate_at
  skips_when i target liquidity some_left skips =
      elim (Bool-cases (c.adaptive_fee_control_factor == 0)) [
        | inl idle ↦ inl (==→eq _ _ idle)
        | inr active ↦ elim (Bool-cases (is_below i (lower_bound c v))) [
          | inl below ↦ inr (rw below refl)
          | inr inside ↦ elim (Bool-cases (is_above i (upper_bound c v))) [
            | inl above ↦ inr (rw (inside, above) refl)
            | inr within ↦
                let left : liquidity == 0 ≡ false = ground arith in
                absurd (let same = rw (active, left, inside, within) at skips in cc)
          ]
        ]
      ]

  surcharge_flat :
      (i j : ℤ)
      → IsGroup i
      → IsGroup j
      → (c.adaptive_fee_control_factor ≡ 0)
        ⊎ (is_beyond (adaptive_manager z group rate c v) i ≡ true)
      → (c.adaptive_fee_control_factor ≡ 0)
        ⊎ (is_beyond (adaptive_manager z group rate c v) j ≡ true)
      → compute_adaptive_fee_rate c (update_volatility_accumulator v i c)
        ≡ compute_adaptive_fee_rate c (update_volatility_accumulator v j c)
  surcharge_flat i j hi hj (inl idle) s =
      no_surcharge c (update_volatility_accumulator v i c) idle
      ∙ sym (no_surcharge c (update_volatility_accumulator v j c) idle)
  surcharge_flat i j hi hj (inr beyond) (inl idle) =
      no_surcharge c (update_volatility_accumulator v i c) idle
      ∙ sym (no_surcharge c (update_volatility_accumulator v j c) idle)
  surcharge_flat i j hi hj (inr beyond_i) (inr beyond_j) =
      same_surcharge c (update_volatility_accumulator v i c) (update_volatility_accumulator v j c)
        (beyond_max i hi beyond_i ∙ sym (beyond_max j hj beyond_j))

  -- Where a step may be skipped the rate is flat: for a manager with a reference of at most the maximum,
  -- at two tick groups in range where the code skips ahead for liquidity that is not zero, the total
  -- fee rates are the same.
  pub total_fee_rate-flat :
      (i j : ℤ) (target_i target_j liquidity_i liquidity_j : ℕ)
      → IsGroup i
      → IsGroup j
      → 0 < liquidity_i
      → 0 < liquidity_j
      → (let m = adaptive_manager z group rate c v in
          (bounded_sqrt_price_target (at_group m i) target_i liquidity_i).1 ≡ true)
      → (let m = adaptive_manager z group rate c v in
          (bounded_sqrt_price_target (at_group m j) target_j liquidity_j).1 ≡ true)
      → (let m = adaptive_manager z group rate c v in
          total_fee_rate (at_group m i) ≡ total_fee_rate (at_group m j))
  unfolding total_fee_rate adaptive_manager accumulate_at
  total_fee_rate-flat i j target_i target_j liquidity_i liquidity_j hi hj left_i left_j skip_i
        skip_j =
      let same =
        surcharge_flat i j hi hj (skips_when i target_i liquidity_i left_i skip_i)
          (skips_when j target_j liquidity_j left_j skip_j) in
      rw same refl

-- The fee of a step: at least the static fee, at most the limit, for a static fee of a uint16.
pub total_fee_rate-within :
    (m : FeeRateManager)
    → m.static_fee_rate < 2 ^ 16
    → (m.static_fee_rate ≤ total_fee_rate m) × (total_fee_rate m ≤ fee_rate_hard_limit)
unfolding total_fee_rate
total_fee_rate-within m h =
    let limit : compute_adaptive_fee_rate m.constants m.variables ≤ fee_rate_hard_limit =
      surcharge-le m.constants m.variables in
    elim (Bool-cases m.adaptive) [
      | inl adaptive ↦ rw adaptive (ground arith)
      | inr static ↦ rw static (omega arith, omega (arith, h))
    ]
