-- ===== src/Tests/Raydium.antt =====
-- math/raydium and quote/raydium at concrete inputs.
use soldex.Base.{◌+◌, ◌^◌, ◌≤◌, ◌≡◌, ◌↔◌, refl, arith, true, false, none, some, ok, if◌then◌else◌}
use soldex.Base.Int.{pos, eqb_ℤ, ◌+ℤ◌}
use soldex.Math.Common.{nat}
use soldex.Base.Words.{max_u64}
use soldex.Math.Orca.Curve.{get_delta_amount_a, get_delta_amount_b}
use soldex.Math.Raydium.Liquidity.{
  ceil_quo, quo, in_order, delta_0_between, delta_1_between, get_delta_amount_0_unsigned,
  get_delta_amount_1_unsigned,
}
use soldex.Math.Raydium.Liquidity.Orca.{get_delta_amounts-eq-orca}
use soldex.Math.Raydium.Step.{
  SwapStep, compute_swap_step, take_fee, input_fee, step_input, next_price, reaches_target,
  calc_amount_in_to_target, input_between, output_between, amount_for_calc, fee_complement, big_of,
}
use soldex.Math.Raydium.Step.Draws.{compute_swap_step-Draws}
use soldex.Math.Raydium.Step.Outcome.{Draws}
use soldex.Math.Raydium.Tick.{
  sqrt_price_from_tick, ratio_at, ratio_loop, price_from_sqrt_price, limit_order_output,
  limit_order_input,
}
use soldex.Quote.Raydium.State.{
  RaydiumDynamicFee, SwapPool, SwapState, TickBoundary, TickProvider, enabled, is_fee_on_input,
  clamp_target, apply, consumed_input, to_u64, tick_after_cross, cross_liquidity, non_negative,
}
use soldex.Quote.Raydium.State.Books.{booked, drawn, apply_iff}
use soldex.Quote.Raydium.DynamicFee.{
  update_volatility_accumulator, map_dyn, total_fee_rate, charged_rate, spacing_bounded_price,
  runs_to_target, is_capped, update_dynamic_fee_index, is_none,
}
use soldex.Quote.Raydium.LimitOrder.{
  match_limit_orders, fill_orders, book_fill, book_fee, net_input, fee_on_fill,
}
use soldex.Quote.Raydium.LimitOrder.Fills.{Fills, match_limit_orders-Fills}
use soldex.Quote.Raydium.Swap.{
  Crossing, quote_exact_in_detailed, open_pool, new_swap_state, walk_ticks, is_finished,
  price_limit, visit_boundary, after_boundary, step_to_boundary, step_to_price, finish_crossing,
  boundary_loop, after_round, is_done, boundary_round, settle_price, stop_short, landed_tick,
  reach_boundary, cross_if, move_price, start_state, report,
}
use soldex.Quote.Raydium.Swap.Exits.{Ended, quote_exact_in_detailed-Ended}
use soldex.Quote.Raydium.Swap.OneRound.{boundary_loop-eq-boundary_round}

abbrev no_dynamic_fee : RaydiumDynamicFee
no_dynamic_fee = record {
  filter_period = 0;
  decay_period = 0;
  reduction_factor = 0;
  dynamic_fee_control = 0;
  max_volatility_accumulator = 0;
  tick_spacing_index_reference = pos 0;
  volatility_reference = 0;
  volatility_accumulator = 0;
  last_update_timestamp = 0;
}

abbrev pool : SwapPool
pool = record {
  sqrt_price = some (2 ^ 64);
  liquidity = some 1_000_000;
  tick_current = pos 0;
  tick_spacing = 10;
  fee_rate = 2500;
  fee_on = 0;
  status = 0;
  dynamic_fee = no_dynamic_fee;
  block_timestamp = 0;
}

abbrev boundary : TickBoundary
boundary = record {
  tick_index = pos 10;
  liquidity_net = some (pos 1000);
  initialized = true;
  limit_order_unfilled = 50;
}

-- One boundary tick, above the price.
abbrev one_tick : TickProvider
one_tick tick true = none
one_tick tick false = if eqb_ℤ tick (pos 0) then some boundary else none

-- The quote crosses the tick, with its orders, and stops where the provider knows no further one.
run_stops :
    quote_exact_in_detailed 3 3 pool false 1000 one_tick
    ≡ some (ok (record { amount_out = 549; amount_in_consumed = 555 }))
unfolding quote_exact_in_detailed open_pool new_swap_state enabled is_fee_on_input walk_ticks
    is_finished price_limit visit_boundary after_boundary step_to_boundary step_to_price
    finish_crossing boundary_loop after_round is_done boundary_round settle_price stop_short
    landed_tick reach_boundary cross_if move_price start_state report update_volatility_accumulator
    map_dyn total_fee_rate charged_rate spacing_bounded_price runs_to_target is_capped
    update_dynamic_fee_index is_none sqrt_price_from_tick ratio_at ratio_loop clamp_target apply
    consumed_input to_u64 tick_after_cross cross_liquidity non_negative match_limit_orders
    fill_orders book_fill book_fee net_input fee_on_fill compute_swap_step take_fee input_fee
    step_input next_price reaches_target calc_amount_in_to_target input_between output_between
    amount_for_calc fee_complement big_of ceil_quo quo in_order delta_0_between delta_1_between
    get_delta_amount_0_unsigned get_delta_amount_1_unsigned price_from_sqrt_price limit_order_output
    limit_order_input ◌+ℤ◌
run_stops = refl

quote_exact_in_detailed-Ended_example :
    (s : SwapState) × (s' : SwapState) × (open_pool pool 1000 ≡ ok s)
    × (walk_ticks 3 3 false (is_fee_on_input pool false) one_tick s ≡ some (ok s'))
    × (549 ≡ s'.amount_out)
    × (555 + s'.amount_remaining ≡ 1000)
    × Ended one_tick false s'
quote_exact_in_detailed-Ended_example =
    quote_exact_in_detailed-Ended 3 3 pool false 1000 one_tick run_stops

abbrev seed : SwapState
seed = start_state pool (2 ^ 64) 1_000_000 1000

abbrev crossing : Crossing
crossing = record { state = seed; liquidity_next = 1_000_000; unfilled = 50 }

boundary_loop-eq-boundary_round_example :
    boundary_loop 1 boundary (2 ^ 64 + 2 ^ 54) (2 ^ 64 + 2 ^ 54) false true crossing
    ≡ some (boundary_round boundary (2 ^ 64 + 2 ^ 54) (2 ^ 64 + 2 ^ 54) false true crossing)
unfolding start_state
boundary_loop-eq-boundary_round_example =
    boundary_loop-eq-boundary_round 0 boundary (2 ^ 64 + 2 ^ 54) (2 ^ 64 + 2 ^ 54) false true
      crossing refl (omega arith) (omega arith) (omega arith) (omega arith)

match_runs :
    match_limit_orders seed 50 (2 ^ 64) 2500 false true
    ≡ ok (record seed { amount_remaining = 949; amount_out = 50 }, 0)
unfolding start_state apply consumed_input to_u64 match_limit_orders fill_orders book_fill book_fee
    net_input fee_on_fill ceil_quo quo price_from_sqrt_price limit_order_output limit_order_input
    ◌+ℤ◌
match_runs = refl

match_limit_orders-Fills_example :
    Fills seed 50 (record seed { amount_remaining = 949; amount_out = 50 }) 0
match_limit_orders-Fills_example =
    match_limit_orders-Fills seed 50 (2 ^ 64) 2500 false true match_runs

compute_swap_step-Draws_example :
    (s : SwapStep) × (compute_swap_step (2 ^ 64) (2 ^ 64 + 2 ^ 54) 1_000_000 1000 2500 false true
      ≡ ok s)
    × Draws (2 ^ 64) (2 ^ 64 + 2 ^ 54) 1_000_000 1000 2500 false true s
compute_swap_step-Draws_example =
    compute_swap_step-Draws (2 ^ 64) (2 ^ 64 + 2 ^ 54) 1_000_000 1000 2500 false (omega arith) true
      (omega arith) (omega arith) (omega arith)

get_delta_amounts-eq-orca_example :
    (get_delta_amount_0_unsigned (2 ^ 64) (2 ^ 63) 1_000_000 true
      ≡ ok (get_delta_amount_a (2 ^ 64) (2 ^ 63) 1_000_000 true))
    × (get_delta_amount_1_unsigned (2 ^ 64) (2 ^ 63) 1_000_000 true
        ≡ ok (get_delta_amount_b (2 ^ 64) (2 ^ 63) 1_000_000 true))
get_delta_amounts-eq-orca_example =
    get_delta_amounts-eq-orca (2 ^ 64) (2 ^ 63) 1_000_000 true (omega arith) (omega arith)

apply_iff_example : (apply seed (nat 900) (nat 30) (nat 3) true ≡ ok (booked seed 903 30)) ↔ (
    (drawn true 900 3 ≤ seed.amount_remaining)
    × (seed.amount_out + 30 ≤ max_u64)
    × (booked seed (drawn true 900 3) 30 ≡ booked seed 903 30))
unfolding start_state
apply_iff_example = apply_iff seed (booked seed 903 30) 900 30 3 true (omega arith)
