-- ===== src/Quote/Raydium/DynamicFee.antt =====
-- quote/raydium/dynamic_fee.go: the fee that rises with the distance that the price has moved.
use soldex.Base.{
  ℕ, suc, ◌+◌, ◌-◌, ◌*◌, ◌/◌, ◌%◌, ◌^◌, Bool, true, false, not, ◌&&◌, ◌||◌, Option, none, some, ltb,
  ◌==◌, if◌then◌else◌, Result, ok, err, ◌>>=◌, panicked,
}
use soldex.Base.Int.{ℤ, pos, negsuc, ◌+ℤ◌, ◌-ℤ◌, ltb_ℤ, quot, rem_abs, wrap_i32}
use soldex.Base.Words.{u32_mod, u64_mod, add_wrap, mul_wrap}
use soldex.Math.Raydium.Liquidity.{ceil_quo}
use soldex.Math.Raydium.Tick.{min_tick, max_tick, scale_ℤ, sqrt_price_from_tick}
use soldex.Quote.Raydium.State.{RaydiumDynamicFee, SwapState}

abbrev pub volatility_accumulator_scale : ℕ
volatility_accumulator_scale = 10_000

abbrev pub reduction_factor_denominator : ℕ
reduction_factor_denominator = 10_000

abbrev pub dynamic_fee_control_denominator : ℕ
dynamic_fee_control_denominator = 100_000

abbrev pub max_fee_rate_numerator : ℕ
max_fee_rate_numerator = 100_000

-- The remainder by a zero spacing panics.
unfoldable pub tick_spacing_index_from_tick : ℤ → ℕ → Result ℤ
tick_spacing_index_from_tick tick spacing =
    let index = quot tick spacing in
    if spacing == 0
    then err panicked
    else if rem_abs tick spacing == 0 || not (ltb_ℤ tick (pos 0))
    then ok index
    else ok (wrap_i32 (index -ℤ pos 1))

unfoldable pub decay_reference : RaydiumDynamicFee → ℤ → ℕ → RaydiumDynamicFee
decay_reference d index timestamp =
    let last = d.last_update_timestamp in
    let elapsed = if ltb last timestamp then timestamp - last else 0 in
    if ltb elapsed d.filter_period then d else record d {
      tick_spacing_index_reference = index;
      last_update_timestamp = timestamp;
      volatility_reference =
          if ltb elapsed d.decay_period
          then d.volatility_accumulator * d.reduction_factor / reduction_factor_denominator
            % u32_mod
          else 0;
    }

unfoldable pub map_dyn :
    (RaydiumDynamicFee → RaydiumDynamicFee) → Option RaydiumDynamicFee → Option RaydiumDynamicFee
map_dyn f none = none
map_dyn f (some d) = some (f d)

unfoldable pub update_reference : SwapState → ℤ → ℕ → SwapState
update_reference s index timestamp = record s {
  dyn = map_dyn (λ d. decay_reference d index timestamp) s.dyn;
}

-- `uint64(delta)` of an int32 that may stay negative where its negation wraps.
unfoldable pub abs_u64 : ℤ → ℕ
abs_u64 (pos n) = n
abs_u64 (negsuc n) = if (suc n) == 2 ^ 31 then u64_mod - 2 ^ 31 else suc n

unfoldable pub accumulate : RaydiumDynamicFee → ℤ → RaydiumDynamicFee
accumulate d index =
    let delta = wrap_i32 (d.tick_spacing_index_reference -ℤ index) in
    let accumulated =
      add_wrap d.volatility_reference (mul_wrap (abs_u64 delta) volatility_accumulator_scale) in
    let max = d.max_volatility_accumulator in
    record d { volatility_accumulator = if ltb max accumulated then max else accumulated }

unfoldable pub update_volatility_accumulator : SwapState → SwapState
update_volatility_accumulator s = record s {
  dyn = map_dyn (λ d. accumulate d s.tick_spacing_idx) s.dyn;
}

unfoldable pub dynamic_fee_rate : RaydiumDynamicFee → ℕ → Result ℕ
dynamic_fee_rate d tick_spacing = do
  let crossed = d.volatility_accumulator * tick_spacing
  rate ← ceil_quo (d.dynamic_fee_control * (crossed * crossed)) (
      dynamic_fee_control_denominator * volatility_accumulator_scale * volatility_accumulator_scale)
  ok (if ltb max_fee_rate_numerator rate then max_fee_rate_numerator else rate)

unfoldable pub charged_rate : ℕ → ℕ → Option RaydiumDynamicFee → Result ℕ
charged_rate base tick_spacing none = ok base
charged_rate base tick_spacing (some d) = do
  rate ← dynamic_fee_rate d tick_spacing
  let total = base + rate
  ok (if ltb max_fee_rate_numerator total then max_fee_rate_numerator else total)

unfoldable pub total_fee_rate : SwapState → Result ℕ
total_fee_rate s = charged_rate s.base_fee_rate s.tick_spacing s.dyn

-- The three results of `spacingBoundedPrice`.
pub record Bound : Type 0 where
  pub skipped : Bool
  pub price : ℕ
  pub bounded_tick : Option ℤ

-- `min(max(bounded, MinTick), MaxTick)`
unfoldable pub clamp_tick : ℤ → ℤ
clamp_tick tick =
    if ltb_ℤ tick min_tick then min_tick else if ltb_ℤ max_tick tick then max_tick else tick

-- The edge of the spacing group in the direction of the swap.
unfoldable pub group_edge : ℤ → ℕ → Bool → ℤ
group_edge index spacing zero_for_one =
    clamp_tick (wrap_i32 (scale_ℤ (if zero_for_one then index else index +ℤ pos 1) spacing))

unfoldable pub bound_by : (target bounded_price : ℕ) → ℤ → Bool → Bound
bound_by target bounded_price bounded zero_for_one =
    if (if zero_for_one then ltb bounded_price target else ltb target bounded_price)
    then record { skipped = false; price = target; bounded_tick = none }
    else record { skipped = false; price = bounded_price; bounded_tick = some bounded }

-- `VolatilityAccumulator == MaxVolatilityAccumulator`, and true where there is no dynamic fee.
unfoldable pub is_capped : Option RaydiumDynamicFee → Bool
is_capped none = true
is_capped (some d) = d.volatility_accumulator == d.max_volatility_accumulator

-- The test at the head of `spacingBoundedPrice`.
unfoldable pub runs_to_target : Option RaydiumDynamicFee → ℕ → Bool
runs_to_target dyn liquidity = is_capped dyn || liquidity == 0

unfoldable pub spacing_bounded_price : SwapState → ℕ → Bool → Result Bound
spacing_bounded_price s target zero_for_one =
    if runs_to_target s.dyn s.liquidity
    then ok (record { skipped = true; price = target; bounded_tick = none })
    else (do
      let bounded = group_edge s.tick_spacing_idx s.tick_spacing zero_for_one
      bounded_price ← sqrt_price_from_tick bounded
      ok (bound_by target bounded_price bounded zero_for_one))

-- The index where the price landed, recomputed after a step that was not bounded.
unfoldable pub landed_index : SwapState → Bool → ℕ → ℤ → Result ℤ
landed_index s zero_for_one tick_price tick_next = do
  let landed = if s.sqrt_price == tick_price then tick_next else s.tick
  index ← tick_spacing_index_from_tick landed s.tick_spacing
  ok (
      if not zero_for_one && rem_abs landed s.tick_spacing == 0
      then wrap_i32 (index -ℤ pos 1)
      else index)

-- `if VolatilityAccumulator != MaxVolatilityAccumulator { … }`
unfoldable pub accumulate_unless_capped : SwapState → SwapState
accumulate_unless_capped s = if is_capped s.dyn then s else update_volatility_accumulator s

unfoldable pub move_index : Bool → SwapState → SwapState
move_index zero_for_one s =
    let index = s.tick_spacing_idx in
    record s {
      tick_spacing_idx = wrap_i32 (if zero_for_one then index -ℤ pos 1 else index +ℤ pos 1);
    }

unfoldable pub recompute_index : SwapState → Bool → Bool → ℕ → ℤ → Result SwapState
recompute_index s zero_for_one false tick_price tick_next = ok s
recompute_index s zero_for_one true tick_price tick_next = do
  index ← landed_index s zero_for_one tick_price tick_next
  ok (accumulate_unless_capped (record s { tick_spacing_idx = index }))

unfoldable pub is_none : Option RaydiumDynamicFee → Bool
is_none none = true
is_none (some d) = false

unfoldable pub update_dynamic_fee_index : SwapState → Bool → Bool → ℕ → ℤ → Result SwapState
update_dynamic_fee_index s zero_for_one skipped tick_price tick_next =
    if is_none s.dyn then ok s else (do
      s' ← recompute_index s zero_for_one skipped tick_price tick_next
      ok (move_index zero_for_one s'))
