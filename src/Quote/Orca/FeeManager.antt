-- ===== src/Quote/Orca/FeeManager.antt =====
-- quote/orca/fee_rate_manager.go: the fee rate of each step of a swap.
pub mod Core
pub mod Flat
use soldex.Base.{
  ℕ, zero, suc, ◌+◌, ◌-◌, ◌*◌, ◌/◌, ◌%◌, ◌^◌, ◌≤◌, ◌<◌, ◌≡◌, ◌≢◌, refl, sym, ap, ◌∙◌, ◌↔◌, ◌⊎◌, inl,
  inr, arith, Bool, true, false, not, ◌&&◌, ◌||◌, Option, none, some, List, [], ◌∷◌, ◌++◌, ltb, leb,
  ◌==◌, if◌then◌else◌, Result, ok, err, ◌>>=◌, ◌>>◌, Error, math_overflow, divide_by_zero,
  negative_value, type_cast_failed, fail_if, zero_output, unsupported_curve, unknown_creator_fee_on,
  invalid_pool, amount_overflow, negative_liquidity, swap_disabled, insufficient_data,
  invalid_discriminator, panicked, insufficient_liquidity, price_range_violation, compounding_pool,
  >>=-eq-ok, ok-injective, Bool-cases, Option-cases, ltb→lt, ltb→le, leb→le, leb→lt, ==→eq, lt→ltb,
  le→ltb, le→leb,
}
use soldex.Base.Int.{ℤ, pos, ◌+ℤ◌, ◌-ℤ◌, ltb_ℤ, quot, rem_abs, wrap_i32}
use soldex.Base.Words.{u32_mod}
use soldex.Math.Raydium.Tick.{scale_ℤ}
use soldex.Math.Orca.Tick.{
  min_tick_index, max_tick_index, sqrt_price_from_tick_index, tick_index_from_sqrt_price,
}
use soldex.Quote.Orca.Adaptive.{
  AdaptiveFeeConstants, AdaptiveFeeVariables, AdaptiveFeeInfo, volatility_accumulator_scale_factor,
  fee_rate_hard_limit, floor_division, ceil_division_u32, update_reference,
  update_volatility_accumulator, compute_adaptive_fee_rate,
}

pub record TickGroupBound : Type 0 where
  pub index : ℤ
  pub sqrt_price : ℕ

pub record FeeRateManager : Type 0 where
  pub adaptive : Bool
  pub a_to_b : Bool
  pub tick_group_index : ℤ
  pub static_fee_rate : ℕ
  pub constants : AdaptiveFeeConstants
  pub variables : AdaptiveFeeVariables
  pub core_lower : Option TickGroupBound
  pub core_upper : Option TickGroupBound

-- The zero values of Go.
abbrev pub zero_constants : AdaptiveFeeConstants
zero_constants = record {
  filter_period = 0;
  decay_period = 0;
  reduction_factor = 0;
  adaptive_fee_control_factor = 0;
  max_volatility_accumulator = 0;
  tick_group_size = 0;
  major_swap_threshold_ticks = 0;
}

abbrev pub zero_variables : AdaptiveFeeVariables
zero_variables = record {
  last_reference_update_timestamp = 0;
  last_major_swap_timestamp = 0;
  volatility_reference = 0;
  tick_group_index_reference = pos 0;
  volatility_accumulator = 0;
}

unfoldable pub static_manager : ℕ → FeeRateManager
static_manager static_fee_rate = record {
  adaptive = false;
  a_to_b = false;
  tick_group_index = pos 0;
  static_fee_rate = static_fee_rate;
  constants = zero_constants;
  variables = zero_variables;
  core_lower = none;
  core_upper = none;
}

-- The number of tick groups from the reference to where the accumulator is at its maximum.
unfoldable pub max_delta : AdaptiveFeeConstants → AdaptiveFeeVariables → ℕ
max_delta c v =
    ceil_division_u32 ((c.max_volatility_accumulator + u32_mod - v.volatility_reference) % u32_mod)
      volatility_accumulator_scale_factor

unfoldable pub lower_index : AdaptiveFeeConstants → AdaptiveFeeVariables → ℤ
lower_index c v = wrap_i32 (v.tick_group_index_reference -ℤ wrap_i32 (pos (max_delta c v)))

unfoldable pub upper_index : AdaptiveFeeConstants → AdaptiveFeeVariables → ℤ
upper_index c v = wrap_i32 (v.tick_group_index_reference +ℤ wrap_i32 (pos (max_delta c v)))

unfoldable pub lower_bound : AdaptiveFeeConstants → AdaptiveFeeVariables → Option TickGroupBound
lower_bound c v =
    let index = lower_index c v in
    let tick = wrap_i32 (scale_ℤ index c.tick_group_size) in
    if ltb_ℤ min_tick_index tick
    then some (record { index = index; sqrt_price = sqrt_price_from_tick_index tick })
    else none

unfoldable pub upper_bound : AdaptiveFeeConstants → AdaptiveFeeVariables → Option TickGroupBound
upper_bound c v =
    let index = upper_index c v in
    let tick = wrap_i32 (wrap_i32 (scale_ℤ index c.tick_group_size) +ℤ pos c.tick_group_size) in
    if ltb_ℤ tick max_tick_index
    then some (record { index = index; sqrt_price = sqrt_price_from_tick_index tick })
    else none

unfoldable pub adaptive_manager :
    Bool → ℤ → ℕ → AdaptiveFeeConstants → AdaptiveFeeVariables → FeeRateManager
adaptive_manager a_to_b tick_group_index static_fee_rate c v = record {
  adaptive = true;
  a_to_b = a_to_b;
  tick_group_index = tick_group_index;
  static_fee_rate = static_fee_rate;
  constants = c;
  variables = v;
  core_lower = lower_bound c v;
  core_upper = upper_bound c v;
}

-- `none` for a timestamp out of order.
unfoldable pub prime_manager :
    Bool → ℤ → ℕ → AdaptiveFeeConstants → Option AdaptiveFeeVariables → Option FeeRateManager
prime_manager a_to_b tick_group_index static_fee_rate c none = none
prime_manager a_to_b tick_group_index static_fee_rate c (some v) =
    some (adaptive_manager a_to_b tick_group_index static_fee_rate c v)

unfoldable pub new_fee_rate_manager :
    Bool
    → (current_tick_index : ℤ) → (timestamp static_fee_rate : ℕ) → Option AdaptiveFeeInfo
    → Result (Option FeeRateManager)
new_fee_rate_manager a_to_b current_tick_index timestamp static_fee_rate none =
    ok (some (static_manager static_fee_rate))
new_fee_rate_manager a_to_b current_tick_index timestamp static_fee_rate (some info) = do
  let c = info.constants
  tick_group_index ← floor_division current_tick_index c.tick_group_size
  ok (
      prime_manager a_to_b tick_group_index static_fee_rate c
        (update_reference info.variables tick_group_index timestamp c))

-- The accumulator at another tick group.
unfoldable pub accumulate_at : FeeRateManager → ℤ → FeeRateManager
accumulate_at m tick_group_index = record m {
  variables = update_volatility_accumulator m.variables tick_group_index m.constants;
}

unfoldable pub update_accumulator : FeeRateManager → FeeRateManager
update_accumulator m = if m.adaptive then accumulate_at m m.tick_group_index else m

unfoldable pub total_fee_rate : FeeRateManager → ℕ
total_fee_rate m =
    let total = (m.static_fee_rate + compute_adaptive_fee_rate m.constants m.variables) % u32_mod in
    if m.adaptive
    then (if ltb fee_rate_hard_limit total then fee_rate_hard_limit else total)
    else m.static_fee_rate

-- One tick group on, in the direction of the swap.
unfoldable pub next_group : Bool → ℤ → ℤ
next_group a_to_b index = wrap_i32 (if a_to_b then index -ℤ pos 1 else index +ℤ pos 1)

unfoldable pub advance_tick_group : FeeRateManager → FeeRateManager
advance_tick_group m =
    if m.adaptive then record m { tick_group_index = next_group m.a_to_b m.tick_group_index } else m

unfoldable pub clamp_tick : ℤ → ℤ
clamp_tick t =
    if ltb_ℤ t min_tick_index
    then min_tick_index
    else if ltb_ℤ max_tick_index t
    then max_tick_index
    else t

unfoldable pub big_min : ℕ → ℕ → ℕ
big_min a b = if leb a b then a else b

unfoldable pub big_max : ℕ → ℕ → ℕ
big_max a b = if leb b a then a else b

-- The group is beyond the edge of the core range.
unfoldable pub is_below : ℤ → Option TickGroupBound → Bool
is_below index none = false
is_below index (some bound) = ltb_ℤ index bound.index

unfoldable pub is_above : ℤ → Option TickGroupBound → Bool
is_above index none = false
is_above index (some bound) = ltb_ℤ bound.index index

-- The target, or the edge of the core range where the swap moves to it.
unfoldable pub stop_at_lower : Bool → ℕ → Option TickGroupBound → ℕ
stop_at_lower a_to_b sqrt_price none = sqrt_price
stop_at_lower a_to_b sqrt_price (some bound) =
    if a_to_b then sqrt_price else big_min sqrt_price bound.sqrt_price

unfoldable pub stop_at_upper : Bool → ℕ → Option TickGroupBound → ℕ
stop_at_upper a_to_b sqrt_price none = sqrt_price
stop_at_upper a_to_b sqrt_price (some bound) =
    if a_to_b then big_max sqrt_price bound.sqrt_price else sqrt_price

-- The edge of the tick group in the direction of the swap.
unfoldable pub boundary_tick : FeeRateManager → ℤ
boundary_tick m =
    let ts = m.constants.tick_group_size in
    let lower = wrap_i32 (scale_ℤ m.tick_group_index ts) in
    clamp_tick (if m.a_to_b then lower else wrap_i32 (lower +ℤ pos ts))

unfoldable pub stop_at_group : FeeRateManager → ℕ → ℕ
stop_at_group m sqrt_price =
    let edge = sqrt_price_from_tick_index (boundary_tick m) in
    if m.a_to_b then big_max sqrt_price edge else big_min sqrt_price edge

-- The target, and whether the rate is flat up to it.
unfoldable pub bounded_sqrt_price_target : FeeRateManager → (sqrt_price liquidity : ℕ) → ℕ × Bool
bounded_sqrt_price_target m sqrt_price liquidity =
    if not m.adaptive
    then (sqrt_price, false)
    else if m.constants.adaptive_fee_control_factor == 0 || liquidity == 0
    then (sqrt_price, true)
    else if is_below m.tick_group_index m.core_lower
    then (stop_at_lower m.a_to_b sqrt_price m.core_lower, true)
    else if is_above m.tick_group_index m.core_upper
    then (stop_at_upper m.a_to_b sqrt_price m.core_upper, true)
    else (stop_at_group m sqrt_price, false)

-- The tick where the price is, and whether it is on the boundary of a tick group.
unfoldable pub landed_on : (sqrt_price next_tick_sqrt_price : ℕ) → ℤ → ℕ → ℤ × Bool
landed_on sqrt_price next_tick_sqrt_price next_tick_index ts =
    let tick_index = tick_index_from_sqrt_price sqrt_price in
    if sqrt_price == next_tick_sqrt_price
    then (next_tick_index, rem_abs next_tick_index ts == 0)
    else (
      tick_index,
      rem_abs tick_index ts == 0 && sqrt_price == sqrt_price_from_tick_index tick_index,
    )

unfoldable pub last_traversed : Bool → ℕ → ℤ × Bool → Result ℤ
last_traversed a_to_b ts (tick_index, on_boundary) =
    if on_boundary && not a_to_b
    then ok (wrap_i32 (quot tick_index ts -ℤ pos 1))
    else floor_division tick_index ts

-- The manager at the last tick group that the step went through, where that is further on.
unfoldable pub realign : FeeRateManager → ℤ → FeeRateManager
realign m last =
    if (if m.a_to_b then ltb_ℤ last m.tick_group_index else ltb_ℤ m.tick_group_index last)
    then accumulate_at (record m { tick_group_index = last }) last
    else m

-- The remainder by a tick group of size zero panics.
unfoldable pub advance_tick_group_after_skip :
    FeeRateManager → (sqrt_price next_tick_sqrt_price : ℕ) → ℤ → Result FeeRateManager
advance_tick_group_after_skip m sqrt_price next_tick_sqrt_price next_tick_index =
    let ts = m.constants.tick_group_size in
    if not m.adaptive then ok m else if ts == 0 then err panicked else (do
      last ←
          last_traversed m.a_to_b ts (landed_on sqrt_price next_tick_sqrt_price next_tick_index ts)
      ok (advance_tick_group (realign m last)))

unfoldable pub is_major_swap : (pre_sqrt_price post_sqrt_price threshold_ticks : ℕ) → Bool
is_major_swap pre_sqrt_price post_sqrt_price threshold_ticks =
    let smaller = big_min pre_sqrt_price post_sqrt_price in
    let larger = if leb pre_sqrt_price post_sqrt_price then post_sqrt_price else pre_sqrt_price in
    leb (smaller * sqrt_price_from_tick_index (pos threshold_ticks) / 2 ^ 64) larger

unfoldable pub update_major_swap_timestamp :
    FeeRateManager → (timestamp pre_sqrt_price post_sqrt_price : ℕ) → FeeRateManager
update_major_swap_timestamp m timestamp pre_sqrt_price post_sqrt_price =
    let threshold = m.constants.major_swap_threshold_ticks in
    if m.adaptive && is_major_swap pre_sqrt_price post_sqrt_price threshold
    then record m { variables = record m.variables { last_major_swap_timestamp = timestamp } }
    else m
