-- ===== src/Quote/Orca/Swap.antt =====
-- quote/orca/swap_quote.go: the walk over the boundary ticks, and the steps toward one of them.
pub mod Rounds
pub mod Exits
pub mod OneRound
pub mod Ends
use soldex.Base.{
  ℕ, zero, suc, ◌+◌, ◌-◌, ◌*◌, ◌/◌, ◌%◌, ◌^◌, ◌≤◌, ◌<◌, ◌≡◌, ◌≢◌, refl, sym, ap, ◌∙◌, ◌↔◌, ◌⊎◌, inl,
  inr, arith, Bool, true, false, not, ◌&&◌, ◌||◌, Option, none, some, List, [], ◌∷◌, ◌++◌, ltb, leb,
  ◌==◌, if◌then◌else◌, Result, ok, err, ◌>>=◌, ◌>>◌, Error, math_overflow, divide_by_zero,
  negative_value, type_cast_failed, fail_if, zero_output, unsupported_curve, unknown_creator_fee_on,
  invalid_pool, amount_overflow, negative_liquidity, swap_disabled, insufficient_data,
  invalid_discriminator, panicked, insufficient_liquidity, price_range_violation, compounding_pool,
  >>=-eq-ok, ok-injective, Bool-cases, Option-cases, ltb→lt, ltb→le, leb→le, leb→lt, ==→eq, lt→ltb,
  le→ltb, le→leb,
}
use mathlib.Core.Option
use soldex.Base.Int.{ℤ, pos, negsuc, ◌+ℤ◌, ◌-ℤ◌, wrap_i32}
use soldex.Base.Words.{max_u64}
use soldex.Math.Orca.Tick.{
  min_sqrt_price, max_sqrt_price, sqrt_price_from_tick_index, tick_index_from_sqrt_price,
}
use soldex.Quote.Orca.Adaptive.{AdaptiveFeeInfo}
use soldex.Quote.Orca.FeeManager.{
  FeeRateManager, new_fee_rate_manager, update_accumulator, total_fee_rate,
  bounded_sqrt_price_target, advance_tick_group, advance_tick_group_after_skip,
}
use soldex.Quote.Orca.Step.{SwapStep, compute_swap_step}

-- The price and the liquidity may be nil; the tick is an int32, the other fields unsigned words.
pub record SwapPool : Type 0 where
  pub sqrt_price : Option ℕ
  pub liquidity : Option ℕ
  pub tick_current_index : ℤ
  pub tick_spacing : ℕ
  pub fee_rate : ℕ
  pub adaptive_fee : Option AdaptiveFeeInfo
  pub timestamp : ℕ

-- The net liquidity may be nil.
pub record TickBoundary : Type 0 where
  pub tick_index : ℤ
  pub liquidity_net : Option ℤ
  pub initialized : Bool

-- `none` for no further boundary.
abbrev pub TickProvider : Type 0
TickProvider = ℤ → Bool → Option TickBoundary

pub record QuoteResult : Type 0 where
  pub amount_out : ℕ
  pub amount_in_consumed : ℕ

-- The variables of the loops.
pub record Walk : Type 0 where
  pub mgr : FeeRateManager
  pub amount_remaining : ℕ
  pub amount_out : ℕ
  pub sqrt_price : ℕ
  pub liquidity : ℕ
  pub curr_tick : ℤ

unfoldable pub clamp_target : (tick_price limit : ℕ) → Bool → ℕ
clamp_target tick_price limit a_to_b =
    if a_to_b && ltb tick_price limit
    then limit
    else if not a_to_b && ltb limit tick_price
    then limit
    else tick_price

-- `liquidity.Sign() < 0`
unfoldable pub crossed : ℤ → Result ℕ
crossed (pos liquidity) = ok liquidity
crossed (negsuc n) = err negative_liquidity

unfoldable pub cross_liquidity : ℕ → Option ℤ → Bool → Result ℕ
cross_liquidity liquidity none a_to_b = ok liquidity
cross_liquidity liquidity (some net) a_to_b =
    crossed (if a_to_b then pos liquidity -ℤ net else pos liquidity +ℤ net)

-- The amounts of a step, after their guards.
unfoldable pub book : Walk → SwapStep → Result Walk
book w step = do
  fail_if
      (ltb w.amount_remaining step.amount_in
        || ltb (w.amount_remaining - step.amount_in) step.fee_amount)
      amount_overflow
  fail_if (ltb (max_u64 - step.amount_out) w.amount_out) amount_overflow
  ok (record w {
    amount_remaining = w.amount_remaining - (step.amount_in + step.fee_amount);
    amount_out = w.amount_out + step.amount_out;
  })

unfoldable pub cross_if : TickBoundary → ℕ → Bool → Result ℕ
cross_if boundary liquidity a_to_b =
    if boundary.initialized
    then cross_liquidity liquidity boundary.liquidity_net a_to_b
    else ok liquidity

-- The liquidity and the tick at the price after a step.
unfoldable pub land : Walk → TickBoundary → (tick_price next : ℕ) → Bool → Result Walk
land w boundary tick_price next a_to_b =
    if next == tick_price
    then (do
      liquidity ← cross_if boundary w.liquidity a_to_b
      ok (record w {
        liquidity = liquidity;
        curr_tick = if a_to_b then wrap_i32 (boundary.tick_index -ℤ pos 1) else boundary.tick_index;
      }))
    else if next == w.sqrt_price
    then ok w
    else ok (record w { curr_tick = tick_index_from_sqrt_price next })

unfoldable pub advance : FeeRateManager → Bool → (next tick_price : ℕ) → ℤ → Result FeeRateManager
advance mgr skip next tick_price tick_index =
    if skip
    then advance_tick_group_after_skip mgr next tick_price tick_index
    else ok (advance_tick_group mgr)

-- One round of the inner loop.
unfoldable pub swap_round : TickBoundary → (tick_price target : ℕ) → Bool → Walk → Result Walk
swap_round boundary tick_price target a_to_b w = do
  let mgr = update_accumulator w.mgr
  let bounded = bounded_sqrt_price_target mgr target w.liquidity
  step ←
      compute_swap_step w.amount_remaining (total_fee_rate mgr) w.liquidity w.sqrt_price bounded.0
        a_to_b
  booked ← book w step
  landed ← land booked boundary tick_price step.next_price a_to_b
  advanced ← advance mgr bounded.1 step.next_price tick_price boundary.tick_index
  ok (record landed { mgr = advanced; sqrt_price = step.next_price })

unfoldable pub is_done : Walk → ℕ → Bool
is_done w target = w.amount_remaining == 0 || w.sqrt_price == target

-- The rest of the inner loop after a round; the outer `none` means that the fuel ran out.
unfoldable pub after_round : (Walk → Option (Result Walk)) → ℕ → Result Walk → Option (Result Walk)
after_round rest target (err e) = some (err e)
after_round rest target (ok w) = elim (is_done w target) [ true ↦ some (ok w) | false ↦ rest w ]

unfoldable pub swap_rounds :
    ℕ → TickBoundary → (tick_price target : ℕ) → Bool → Walk → Option (Result Walk)
swap_rounds zero boundary tick_price target a_to_b w = none
swap_rounds (suc fuel) boundary tick_price target a_to_b w =
    after_round (swap_rounds fuel boundary tick_price target a_to_b) target
      (swap_round boundary tick_price target a_to_b w)

unfoldable pub price_limit : Bool → ℕ
price_limit a_to_b = if a_to_b then min_sqrt_price else max_sqrt_price

unfoldable pub step_to_boundary : ℕ → Walk → Bool → TickBoundary → Option (Result Walk)
step_to_boundary fuel w a_to_b boundary =
    let tick_price = sqrt_price_from_tick_index boundary.tick_index in
    swap_rounds fuel boundary tick_price (clamp_target tick_price (price_limit a_to_b) a_to_b)
      a_to_b w

-- The outer loop's condition, negated.
unfoldable pub is_finished : Walk → Bool → Bool
is_finished w a_to_b = w.amount_remaining == 0 || w.sqrt_price == price_limit a_to_b

-- What follows a boundary: the error, or the rest of the walk.
unfoldable pub after_boundary :
    (Walk → Option (Result Walk)) → Option (Result Walk) → Option (Result Walk)
after_boundary rest none = none
after_boundary rest (some (err e)) = some (err e)
after_boundary rest (some (ok w)) = rest w

-- What the provider answers.
unfoldable pub visit_boundary :
    (TickBoundary → Option (Result Walk)) → Walk → Option TickBoundary → Option (Result Walk)
visit_boundary go w none = some (ok w)
visit_boundary go w (some boundary) = go boundary

-- The outer loop, on fuel: `inner` rounds for each boundary.
unfoldable pub walk_ticks : (outer inner : ℕ) → Bool → TickProvider → Walk → Option (Result Walk)
walk_ticks zero inner a_to_b ticks w = none
walk_ticks (suc outer) inner a_to_b ticks w = elim (is_finished w a_to_b) [
  | true ↦ some (ok w)
  | false ↦
      visit_boundary
        (λ boundary.
          after_boundary (walk_ticks outer inner a_to_b ticks)
            (step_to_boundary inner w a_to_b boundary))
        w (ticks w.curr_tick a_to_b)
]

unfoldable pub start_walk : SwapPool → (sqrt_price liquidity amount_in : ℕ) → FeeRateManager → Walk
start_walk pool sqrt_price liquidity amount_in mgr = record {
  mgr = mgr;
  amount_remaining = amount_in;
  amount_out = 0;
  sqrt_price = sqrt_price;
  liquidity = liquidity;
  curr_tick = pool.tick_current_index;
}

-- `if !ok { return QuoteResult{}, ErrInvalidPool }`
unfoldable pub require_manager : Option FeeRateManager → Result FeeRateManager
require_manager none = err invalid_pool
require_manager (some mgr) = ok mgr

-- The guards at the head, and the seed of the walk.
unfoldable pub open_pool : SwapPool → Bool → ℕ → Result Walk
open_pool pool a_to_b amount_in = elim (pool.sqrt_price) [
  | none ↦ err invalid_pool
  | some sqrt_price ↦ elim (pool.liquidity) [
    | none ↦ err invalid_pool
    | some liquidity ↦ do
      found ←
          new_fee_rate_manager a_to_b pool.tick_current_index pool.timestamp pool.fee_rate
            pool.adaptive_fee
      mgr ← require_manager found
      ok (start_walk pool sqrt_price liquidity amount_in mgr)
  ]
]

unfoldable pub report : ℕ → Result Walk → Result QuoteResult
report amount_in r = do
  w ← r
  ok (record { amount_out = w.amount_out; amount_in_consumed = amount_in - w.amount_remaining })

unfoldable pub quote_exact_in_detailed :
    (outer inner : ℕ) → SwapPool → Bool → ℕ → TickProvider → Option (Result QuoteResult)
quote_exact_in_detailed outer inner pool a_to_b amount_in ticks =
    elim (open_pool pool a_to_b amount_in) [
      | err e ↦ some (err e)
      | ok w ↦ Option.map (report amount_in) (walk_ticks outer inner a_to_b ticks w)
    ]

unfoldable pub quote_exact_in :
    (outer inner : ℕ) → SwapPool → Bool → ℕ → TickProvider → Option (Result ℕ)
quote_exact_in outer inner pool a_to_b amount_in ticks =
    Option.map (λ r. r >>= λ res. ok res.amount_out)
      (quote_exact_in_detailed outer inner pool a_to_b amount_in ticks)
