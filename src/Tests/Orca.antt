-- ===== src/Tests/Orca.antt =====
-- Runs of quote/orca at concrete inputs.
use soldex.Base.{
  ℕ, zero, suc, ◌+◌, ◌-◌, ◌*◌, ◌/◌, ◌%◌, ◌^◌, ◌≤◌, ◌<◌, ◌≡◌, ◌≢◌, refl, sym, ap, ◌∙◌, ◌↔◌, ◌⊎◌, inl,
  inr, arith, Bool, true, false, not, ◌&&◌, ◌||◌, Option, none, some, List, [], ◌∷◌, ◌++◌, ltb, leb,
  ◌==◌, if◌then◌else◌, Result, ok, err, ◌>>=◌, ◌>>◌, Error, math_overflow, divide_by_zero,
  negative_value, type_cast_failed, fail_if, zero_output, unsupported_curve, unknown_creator_fee_on,
  invalid_pool, amount_overflow, negative_liquidity, swap_disabled, insufficient_data,
  invalid_discriminator, panicked, insufficient_liquidity, price_range_violation, compounding_pool,
  >>=-eq-ok, ok-injective, Bool-cases, Option-cases, ltb→lt, ltb→le, leb→le, leb→lt, ==→eq, lt→ltb,
  le→ltb, le→leb,
}
use soldex.Base.{some-injective}
use soldex.Base.Int.{ℤ, pos, negsuc, pos_part, neg_part, ltb_ℤ, ◌≤ℤ◌, ◌+ℤ◌, ◌-ℤ◌, wrap_i32}
use soldex.Math.Raydium.Tick.{scale_ℤ}
use soldex.Base.Words.{max_u64}
use soldex.Math.Orca.Tick.{min_tick_index, max_tick_index}
use soldex.Math.Raydium.Step
use soldex.Quote.Orca.Adaptive.{
  AdaptiveFeeConstants, AdaptiveFeeVariables, update_reference, last_timestamp, move_reference,
  decayed_volatility, ceil_division_u32,
}
use soldex.Quote.Orca.Adaptive.Bounds.{IsBounded, update_reference-IsBounded}
use soldex.Quote.Orca.FeeManager.{
  FeeRateManager, adaptive_manager, total_fee_rate, bounded_sqrt_price_target, accumulate_at,
  upper_bound, lower_bound, upper_index, lower_index, max_delta, is_below, is_above,
}
use soldex.Quote.Orca.FeeManager.Flat.{at_group, total_fee_rate-flat}
use soldex.Quote.Orca.Step.{SwapStep, compute_swap_step}
use soldex.Quote.Orca.Step.Raydium.{words_of, compute_swap_step-eq-raydium}
use soldex.Quote.Orca.Step.Draws.{StepOutcome, compute_swap_step-StepOutcome}
use soldex.Quote.Orca.Swap.{
  SwapPool, TickBoundary, TickProvider, QuoteResult, Walk, open_pool, walk_ticks,
  quote_exact_in_detailed,
}
use soldex.Quote.Orca.Swap.Exits.{Stops, quote_exact_in_detailed-Stops}
use soldex.Quote.Orca.Swap.Ends.{IsSearch, ticks_left, quote_exact_in_detailed-returns}

-- A step of the price 1 down to 15 / 16, with a million units of liquidity.
compute_swap_step-eq-raydium_example :
    compute_swap_step 1_000 3_000 1_000_000 (2 ^ 64) (2 ^ 64 - 2 ^ 60) true ≡ (
      Step.compute_swap_step (2 ^ 64) (2 ^ 64 - 2 ^ 60) 1_000_000 1_000 3_000 true true
      >>= words_of)
compute_swap_step-eq-raydium_example =
    compute_swap_step-eq-raydium (2 ^ 64) (2 ^ 64 - 2 ^ 60) 1_000_000 1_000 3_000 true (omega arith)
      (omega arith) (omega arith) (omega arith)

compute_swap_step-StepOutcome_example :
    StepOutcome
      (2 ^ 64)
      (2 ^ 64 - 2 ^ 60)
      1_000_000
      1_000
      3_000
      true
      (compute_swap_step 1_000 3_000 1_000_000 (2 ^ 64) (2 ^ 64 - 2 ^ 60) true)
compute_swap_step-StepOutcome_example =
    compute_swap_step-StepOutcome (2 ^ 64) (2 ^ 64 - 2 ^ 60) 1_000_000 1_000 3_000 true
      (omega arith) (omega arith) (omega arith) (omega arith)

-- A provider that knows the two ends of the tick range.
abbrev edge_at : ℤ → TickBoundary
edge_at t = record { tick_index = t; liquidity_net = none; initialized = false }

abbrev edges : TickProvider
edges from_tick true =
    if ltb_ℤ from_tick min_tick_index then none else some (edge_at min_tick_index)
edges from_tick false =
    if ltb_ℤ from_tick max_tick_index then some (edge_at max_tick_index) else none

abbrev pool : SwapPool
pool = record {
  sqrt_price = some (2 ^ 64);
  liquidity = some 1_000_000;
  tick_current_index = pos 0;
  tick_spacing = 64;
  fee_rate = 3_000;
  adaptive_fee = none;
  timestamp = 0;
}

down_found :
    (t : Bool) (e : TickBoundary) {b : TickBoundary}
    → (if t then none else some e) ≡ some b
    → (t ≡ false) × (e ≡ b)
down_found true e h = cc
down_found false e h = (refl, some-injective h)

up_found :
    (t : Bool) (e : TickBoundary) {b : TickBoundary}
    → (if t then some e else none) ≡ some b
    → (t ≡ true) × (e ≡ b)
up_found true e h = (refl, some-injective h)
up_found false e h = cc

found_edge :
    (from_tick : ℤ) (z : Bool) (b : TickBoundary)
    → edges from_tick z ≡ some b
    → (b.tick_index ≡ (if z then min_tick_index else max_tick_index))
found_edge from_tick true b h =
    ap (λ e. e.tick_index)
      (sym (down_found (ltb_ℤ from_tick min_tick_index) (edge_at min_tick_index) h).1)
found_edge from_tick false b h =
    ap (λ e. e.tick_index)
      (sym (up_found (ltb_ℤ from_tick max_tick_index) (edge_at max_tick_index) h).1)

within : (z : Bool) → min_tick_index ≤ℤ (if z then min_tick_index else max_tick_index)
within true = omega arith
within false = omega arith

within_max : (z : Bool) → (if z then min_tick_index else max_tick_index) ≤ℤ max_tick_index
within_max true = omega arith
within_max false = omega arith

edges-IsSearch : IsSearch edges
edges-IsSearch = record {
  above_min = λ from_tick z b h. rw (found_edge from_tick z b h) (within z);
  below_max = λ from_tick z b h. rw (found_edge from_tick z b h) (within_max z);
  down = λ from_tick b h.
      let (test, _) = down_found (ltb_ℤ from_tick min_tick_index) (edge_at min_tick_index) h in
      rw (found_edge from_tick true b h) (omega (arith, ltb→le _ _ test));
  up = λ from_tick b h.
      let (test, _) = up_found (ltb_ℤ from_tick max_tick_index) (edge_at max_tick_index) h in
      rw (found_edge from_tick false b h) (omega (arith, ltb→lt _ _ test));
}

quote_exact_in_detailed-returns_example :
    (r : Result QuoteResult) × (quote_exact_in_detailed 443_700 1 pool true 1_000 edges ≡ some r)
unfolding ticks_left
quote_exact_in_detailed-returns_example =
    quote_exact_in_detailed-returns 443_700 0 pool true 1_000 edges (2 ^ 64) refl (omega arith) refl
      (omega arith) (omega arith) edges-IsSearch (omega arith)

quote_runs :
    quote_exact_in_detailed 4 1 pool true 1_000 edges
    ≡ some (ok (record { amount_out = 996; amount_in_consumed = 1_000 }))
unfolding soldex.Quote.Orca.Swap.clamp_target soldex.Quote.Orca.Swap.crossed
    soldex.Quote.Orca.Swap.cross_liquidity soldex.Quote.Orca.Swap.book
    soldex.Quote.Orca.Swap.cross_if soldex.Quote.Orca.Swap.land soldex.Quote.Orca.Swap.advance
    soldex.Quote.Orca.Swap.swap_round soldex.Quote.Orca.Swap.is_done
    soldex.Quote.Orca.Swap.after_round soldex.Quote.Orca.Swap.swap_rounds
    soldex.Quote.Orca.Swap.price_limit soldex.Quote.Orca.Swap.step_to_boundary
    soldex.Quote.Orca.Swap.is_finished soldex.Quote.Orca.Swap.after_boundary
    soldex.Quote.Orca.Swap.visit_boundary soldex.Quote.Orca.Swap.walk_ticks
    soldex.Quote.Orca.Swap.start_walk soldex.Quote.Orca.Swap.require_manager
    soldex.Quote.Orca.Swap.open_pool soldex.Quote.Orca.Swap.report
    soldex.Quote.Orca.Swap.quote_exact_in_detailed soldex.Quote.Orca.Swap.quote_exact_in
    soldex.Quote.Orca.Step.to_u64 soldex.Quote.Orca.Step.fixed_delta
    soldex.Quote.Orca.Step.unfixed_delta soldex.Quote.Orca.Step.amount_calc
    soldex.Quote.Orca.Step.step_fee soldex.Quote.Orca.Step.reaches_target
    soldex.Quote.Orca.Step.next_price soldex.Quote.Orca.Step.compute_swap_step
    soldex.Quote.Orca.FeeManager.static_manager soldex.Quote.Orca.FeeManager.max_delta
    soldex.Quote.Orca.FeeManager.lower_index soldex.Quote.Orca.FeeManager.upper_index
    soldex.Quote.Orca.FeeManager.lower_bound soldex.Quote.Orca.FeeManager.upper_bound
    soldex.Quote.Orca.FeeManager.adaptive_manager soldex.Quote.Orca.FeeManager.prime_manager
    soldex.Quote.Orca.FeeManager.new_fee_rate_manager soldex.Quote.Orca.FeeManager.accumulate_at
    soldex.Quote.Orca.FeeManager.update_accumulator soldex.Quote.Orca.FeeManager.total_fee_rate
    soldex.Quote.Orca.FeeManager.next_group soldex.Quote.Orca.FeeManager.advance_tick_group
    soldex.Quote.Orca.FeeManager.clamp_tick soldex.Quote.Orca.FeeManager.big_min
    soldex.Quote.Orca.FeeManager.big_max soldex.Quote.Orca.FeeManager.is_below
    soldex.Quote.Orca.FeeManager.is_above soldex.Quote.Orca.FeeManager.stop_at_lower
    soldex.Quote.Orca.FeeManager.stop_at_upper soldex.Quote.Orca.FeeManager.boundary_tick
    soldex.Quote.Orca.FeeManager.stop_at_group
    soldex.Quote.Orca.FeeManager.bounded_sqrt_price_target soldex.Quote.Orca.FeeManager.landed_on
    soldex.Quote.Orca.FeeManager.last_traversed soldex.Quote.Orca.FeeManager.realign
    soldex.Quote.Orca.FeeManager.advance_tick_group_after_skip
    soldex.Quote.Orca.FeeManager.is_major_swap
    soldex.Quote.Orca.FeeManager.update_major_swap_timestamp soldex.Math.Orca.Curve.order
    soldex.Math.Orca.Curve.quo_rem_rounded soldex.Math.Orca.Curve.amount_a_between
    soldex.Math.Orca.Curve.amount_b_between soldex.Math.Orca.Curve.get_delta_amount_a
    soldex.Math.Orca.Curve.get_delta_amount_b soldex.Math.Orca.Curve.denominator_from_a
    soldex.Math.Orca.Curve.next_sqrt_price_from_a soldex.Math.Orca.Curve.next_sqrt_price_from_b
    soldex.Math.Orca.Curve.fixes_a soldex.Math.Orca.Curve.next_sqrt_price
    soldex.Math.Orca.Tick.mul_shift soldex.Math.Orca.Tick.fold_bits
    soldex.Math.Orca.Tick.sqrt_price_positive_tick soldex.Math.Orca.Tick.sqrt_price_negative_tick
    soldex.Math.Orca.Tick.sqrt_price_from_tick_index soldex.Math.Orca.Tick.logbp_x64
    soldex.Math.Orca.Tick.tick_index_from_sqrt_price soldex.Math.Common.div_floor
    soldex.Math.Common.div_ceil soldex.Math.Damm.MulDiv.bit_len soldex.Math.Raydium.Tick.normalised
    soldex.Math.Raydium.Tick.log_loop soldex.Math.Raydium.Tick.scale_ℤ
    soldex.Math.Raydium.Tick.rsh_64 soldex.Base.Int.◌+ℤ◌ soldex.Base.Int.◌-ℤ◌
    soldex.Base.Int.wrap_i32 soldex.Base.Words.sub_wrap
quote_runs = refl

-- The run of the same quote, taken apart.
quote_exact_in_detailed-Stops_example :
    (w : Walk) × (w' : Walk) × (open_pool pool true 1_000 ≡ ok w)
    × (walk_ticks 4 1 true edges w ≡ some (ok w'))
    × (996 ≡ w'.amount_out)
    × (w'.amount_out ≤ max_u64)
    × (1_000 + w'.amount_remaining ≡ 1_000)
    × Stops edges true w'
quote_exact_in_detailed-Stops_example =
    quote_exact_in_detailed-Stops 4 1 pool true 1_000 edges quote_runs

-- An adaptive pool whose accumulator is at its maximum 35 tick groups from the reference.
abbrev constants : AdaptiveFeeConstants
constants = record {
  filter_period = 30;
  decay_period = 600;
  reduction_factor = 5_000;
  adaptive_fee_control_factor = 4_000;
  max_volatility_accumulator = 350_000;
  tick_group_size = 64;
  major_swap_threshold_ticks = 64;
}

abbrev variables : AdaptiveFeeVariables
variables = record {
  last_reference_update_timestamp = 1_000;
  last_major_swap_timestamp = 1_100;
  volatility_reference = 0;
  tick_group_index_reference = pos 0;
  volatility_accumulator = 200_000;
}

abbrev decayed : AdaptiveFeeVariables
decayed = record variables {
  tick_group_index_reference = pos 5;
  volatility_reference = 100_000;
  last_reference_update_timestamp = 1_200;
}

decays : update_reference variables (pos 5) 1_200 constants ≡ some decayed
unfolding update_reference move_reference decayed_volatility last_timestamp
decays = refl

update_reference-IsBounded_example :
    IsBounded constants decayed
    × (last_timestamp variables ≤ 1_200)
    × (last_timestamp decayed ≤ 1_200)
update_reference-IsBounded_example =
    update_reference-IsBounded constants variables (pos 5) 1_200 (omega arith)
      (record { accumulator = omega arith; reference = omega arith }) decays

abbrev manager : FeeRateManager
manager = adaptive_manager false (pos 0) 3_000 constants variables

-- The code skips ahead at the groups 40 and 60.
skips :
    ((bounded_sqrt_price_target (at_group manager (pos 40)) (2 ^ 66) 1_000_000).1 ≡ true)
    × ((bounded_sqrt_price_target (at_group manager (pos 60)) (2 ^ 67) 5_000).1 ≡ true)
unfolding adaptive_manager bounded_sqrt_price_target accumulate_at upper_bound lower_bound
    upper_index lower_index max_delta ceil_division_u32 is_below is_above wrap_i32 scale_ℤ ◌-ℤ◌ ◌+ℤ◌
skips = (refl, refl)

total_fee_rate-flat_example :
    total_fee_rate (at_group manager (pos 40)) ≡ total_fee_rate (at_group manager (pos 60))
total_fee_rate-flat_example =
    total_fee_rate-flat false (pos 0) 3_000 constants variables (omega arith) (omega arith)
      (omega arith) (pos 40) (pos 60) (2 ^ 66) (2 ^ 67) 1_000_000 5_000 (omega arith) (omega arith)
      (omega arith) (omega arith) skips.0 skips.1
