-- ===== src/Quote/Raydium/Swap.antt =====
-- quote/raydium/swap_quote.go: the walk over the boundary ticks, and the steps toward one of them.
pub mod Rounds
pub mod Exits
pub mod OneRound
use mathlib.Core.Option
use soldex.Base.{
  ℕ, zero, suc, ◌+◌, ◌-◌, ◌*◌, ◌/◌, ◌%◌, ◌^◌, ◌≤◌, ◌<◌, ◌≡◌, ◌≢◌, refl, sym, ap, ◌∙◌, ◌↔◌, ◌⊎◌, inl,
  inr, arith, Bool, true, false, not, ◌&&◌, ◌||◌, Option, none, some, List, [], ◌∷◌, ◌++◌, ltb, leb,
  ◌==◌, if◌then◌else◌, Result, ok, err, ◌>>=◌, ◌>>◌, Error, math_overflow, divide_by_zero,
  negative_value, type_cast_failed, fail_if, zero_output, unsupported_curve, unknown_creator_fee_on,
  invalid_pool, amount_overflow, negative_liquidity, swap_disabled, insufficient_data, panicked,
  insufficient_liquidity, price_range_violation, compounding_pool, >>=-eq-ok, ok-injective,
  Bool-cases, Option-cases, ltb→lt, ltb→le, leb→le, leb→lt, ==→eq, lt→ltb, le→ltb, le→leb,
}
use soldex.Base.Int.{ℤ, pos, negsuc}
use soldex.Math.Common.{BigInt, nat}
use soldex.Math.Raydium.Step.{SwapStep, compute_swap_step}
use soldex.Math.Raydium.Tick.{
  min_sqrt_price, max_sqrt_price, sqrt_price_from_tick, tick_from_sqrt_price,
}
use soldex.Quote.Raydium.State.{
  RaydiumDynamicFee, SwapPool, SwapState, TickBoundary, TickProvider, enabled, is_fee_on_input,
  apply, tick_after_cross, clamp_target, cross_liquidity,
}
use soldex.Quote.Raydium.DynamicFee.{
  Bound, tick_spacing_index_from_tick, update_reference, update_volatility_accumulator,
  total_fee_rate, spacing_bounded_price, update_dynamic_fee_index,
}
use soldex.Quote.Raydium.LimitOrder.{match_limit_orders}

pub record QuoteResult : Type 0 where
  pub amount_out : ℕ
  pub amount_in_consumed : ℕ

-- The variables of the loop of `stepToBoundary`.
pub record Crossing : Type 0 where
  pub state : SwapState
  pub liquidity_next : ℕ
  pub unfilled : ℕ

-- `if s.sqrtPrice.Cmp(bounded) != 0 { … }`: the new price, and the state with the step booked.
unfoldable pub move_price :
    SwapState → (bounded fee_rate : ℕ) → Bool → Bool → Result (ℕ × SwapState)
move_price s bounded fee_rate zero_for_one fee_on_input =
    if s.sqrt_price == bounded then ok (bounded, s) else (do
      step ←
          compute_swap_step s.sqrt_price bounded s.liquidity s.amount_remaining fee_rate
            zero_for_one fee_on_input
      s' ← apply s step.amount_in step.amount_out step.fee_amount fee_on_input
      ok (step.sqrt_price_next, s'))

-- `if boundary.Initialized && unfilled == 0 { … }`
unfoldable pub cross_if : Bool → TickBoundary → ℕ → Bool → Result ℕ
cross_if true boundary liquidity zero_for_one =
    cross_liquidity liquidity boundary.liquidity_net zero_for_one
cross_if false boundary liquidity zero_for_one = ok liquidity

-- The price is on the boundary tick.
unfoldable pub reach_boundary :
    TickBoundary → (tick_price fee_rate : ℕ) → Bool → Bool → Crossing → Result Crossing
reach_boundary boundary tick_price fee_rate zero_for_one fee_on_input c = do
  (s, unfilled) ←
      match_limit_orders c.state c.unfilled tick_price fee_rate zero_for_one fee_on_input
  liquidity_next ←
      cross_if (boundary.initialized && unfilled == 0) boundary c.liquidity_next zero_for_one
  ok (record {
    state = record s { tick = tick_after_cross boundary.tick_index (ltb 0 unfilled) zero_for_one };
    liquidity_next = liquidity_next;
    unfilled = unfilled;
  })

unfoldable pub landed_tick : (sqrt_price bounded : ℕ) → Option ℤ → Result ℤ
landed_tick sqrt_price bounded none = tick_from_sqrt_price sqrt_price
landed_tick sqrt_price bounded (some tick) =
    if sqrt_price == bounded then ok tick else tick_from_sqrt_price sqrt_price

-- The price stopped short of the boundary tick.
unfoldable pub stop_short : (next : ℕ) → Bound → Crossing → Result Crossing
stop_short next bound c = if c.state.sqrt_price == next then ok c else (do
  tick ← landed_tick next bound.price bound.bounded_tick
  ok (record c { state = record (c.state) { tick = tick } }))

unfoldable pub settle_price :
    TickBoundary → (tick_price fee_rate next : ℕ) → Bound → Bool → Bool → Crossing → Result Crossing
settle_price boundary tick_price fee_rate next bound zero_for_one fee_on_input c =
    if tick_price == next
    then reach_boundary boundary tick_price fee_rate zero_for_one fee_on_input c
    else stop_short next bound c

-- One round of the loop of `stepToBoundary`.
unfoldable pub boundary_round :
    TickBoundary → (tick_price target : ℕ) → Bool → Bool → Crossing → Result Crossing
boundary_round boundary tick_price target zero_for_one fee_on_input c = do
  let s = update_volatility_accumulator c.state
  fee_rate ← total_fee_rate s
  bound ← spacing_bounded_price s target zero_for_one
  (next, s') ← move_price s bound.price fee_rate zero_for_one fee_on_input
  c' ←
      settle_price boundary tick_price fee_rate next bound zero_for_one fee_on_input
        (record c { state = s' })
  moved ←
      update_dynamic_fee_index (record (c'.state) { sqrt_price = next }) zero_for_one bound.skipped
        tick_price boundary.tick_index
  ok (record c' { state = moved })

unfoldable pub is_done : Crossing → ℕ → Bool
is_done c target = c.state.amount_remaining == 0 || c.state.sqrt_price == target

-- The rest of the loop after a round; the outer `none` means that the fuel ran out.
unfoldable pub after_round :
    (Crossing → Option (Result Crossing)) → ℕ → Result Crossing → Option (Result Crossing)
after_round rest target (err e) = some (err e)
after_round rest target (ok c) = elim (is_done c target) [ true ↦ some (ok c) | false ↦ rest c ]

unfoldable pub boundary_loop :
    ℕ → TickBoundary → (tick_price target : ℕ) → Bool → Bool → Crossing → Option (Result Crossing)
boundary_loop zero boundary tick_price target zero_for_one fee_on_input c = none
boundary_loop (suc fuel) boundary tick_price target zero_for_one fee_on_input c =
    after_round (boundary_loop fuel boundary tick_price target zero_for_one fee_on_input) target
      (boundary_round boundary tick_price target zero_for_one fee_on_input c)

unfoldable pub finish_crossing : Result Crossing → Result SwapState
finish_crossing r = do c ← r; ok (record (c.state) { liquidity = c.liquidity_next })

-- The steps toward a tick of a given price.
unfoldable pub step_to_price :
    ℕ → SwapState → TickBoundary → (tick_price limit : ℕ) → Bool → Bool → Option (Result SwapState)
step_to_price fuel s boundary tick_price limit zero_for_one fee_on_input =
    Option.map finish_crossing (
      boundary_loop fuel boundary tick_price (clamp_target tick_price limit zero_for_one)
        zero_for_one fee_on_input
        (record {
          state = s;
          liquidity_next = s.liquidity;
          unfilled = boundary.limit_order_unfilled;
        }))

unfoldable pub step_to_boundary :
    ℕ → SwapState → TickBoundary → ℕ → Bool → Bool → Option (Result SwapState)
step_to_boundary fuel s boundary limit zero_for_one fee_on_input =
    elim (sqrt_price_from_tick boundary.tick_index) [
      | err e ↦ some (err e)
      | ok tick_price ↦ step_to_price fuel s boundary tick_price limit zero_for_one fee_on_input
    ]

unfoldable pub price_limit : Bool → ℕ
price_limit zero_for_one = if zero_for_one then min_sqrt_price else max_sqrt_price

-- What follows a boundary: the error, or the rest of the walk.
unfoldable pub after_boundary :
    (SwapState → Option (Result SwapState)) → Option (Result SwapState) → Option (Result SwapState)
after_boundary rest none = none
after_boundary rest (some (err e)) = some (err e)
after_boundary rest (some (ok s)) = rest s

-- What the provider answers.
unfoldable pub visit_boundary :
    (TickBoundary → Option (Result SwapState))
    → SwapState
    → Option TickBoundary
    → Option (Result SwapState)
visit_boundary go s none = some (ok s)
visit_boundary go s (some boundary) = go boundary

unfoldable pub is_finished : SwapState → Bool → Bool
is_finished s zero_for_one = s.amount_remaining == 0 || s.sqrt_price == price_limit zero_for_one

-- The loop of `QuoteExactInDetailed`, on fuel: `inner` rounds for each boundary.
unfoldable pub walk_ticks :
    (outer inner : ℕ) → Bool → Bool → TickProvider → SwapState → Option (Result SwapState)
walk_ticks zero inner zero_for_one fee_on_input ticks s = none
walk_ticks (suc outer) inner zero_for_one fee_on_input ticks s = elim (is_finished s zero_for_one) [
  | true ↦ some (ok s)
  | false ↦
      visit_boundary
        (λ boundary.
          after_boundary (walk_ticks outer inner zero_for_one fee_on_input ticks) (
            step_to_boundary inner s boundary (price_limit zero_for_one) zero_for_one fee_on_input))
        s (ticks s.tick zero_for_one)
]

-- The seed of the walk, for a pool whose price and liquidity are not nil.
unfoldable pub start_state : SwapPool → (sqrt_price liquidity amount_in : ℕ) → SwapState
start_state pool sqrt_price liquidity amount_in = record {
  amount_remaining = amount_in;
  amount_out = 0;
  sqrt_price = sqrt_price;
  liquidity = liquidity;
  tick = pool.tick_current;
  tick_spacing = pool.tick_spacing;
  base_fee_rate = pool.fee_rate;
  tick_spacing_idx = pos 0;
  dyn = none;
}

unfoldable pub new_swap_state : SwapPool → (sqrt_price liquidity amount_in : ℕ) → Result SwapState
new_swap_state pool sqrt_price liquidity amount_in =
    let s = start_state pool sqrt_price liquidity amount_in in
    if enabled pool.dynamic_fee
    then (do
      index ← tick_spacing_index_from_tick pool.tick_current pool.tick_spacing
      ok (
          update_reference (record s { dyn = some (pool.dynamic_fee); tick_spacing_idx = index })
            index pool.block_timestamp))
    else ok s

-- The guards at the head, and the seed.
unfoldable pub open_pool : SwapPool → ℕ → Result SwapState
open_pool pool amount_in = elim (pool.sqrt_price) [
  | none ↦ err invalid_pool
  | some sqrt_price ↦ elim (pool.liquidity) [
    | none ↦ err invalid_pool
    | some liquidity ↦
        fail_if ((pool.status / 2 ^ 4) % 2 == 1) swap_disabled
        >> new_swap_state pool sqrt_price liquidity amount_in
  ]
]

unfoldable pub report : ℕ → Result SwapState → Result QuoteResult
report amount_in r = do
  s ← r
  ok (record { amount_out = s.amount_out; amount_in_consumed = amount_in - s.amount_remaining })

unfoldable pub quote_exact_in_detailed :
    (outer inner : ℕ) → SwapPool → Bool → ℕ → TickProvider → Option (Result QuoteResult)
quote_exact_in_detailed outer inner pool zero_for_one amount_in ticks =
    elim (open_pool pool amount_in) [
      | err e ↦ some (err e)
      | ok s ↦
          Option.map (report amount_in)
            (walk_ticks outer inner zero_for_one (is_fee_on_input pool zero_for_one) ticks s)
    ]

unfoldable pub quote_exact_in :
    (outer inner : ℕ) → SwapPool → Bool → ℕ → TickProvider → Option (Result ℕ)
quote_exact_in outer inner pool zero_for_one amount_in ticks =
    Option.map (λ r. r >>= λ res. ok res.amount_out)
      (quote_exact_in_detailed outer inner pool zero_for_one amount_in ticks)
