-- ===== src/Quote/Raydium/State.antt =====
-- quote/raydium/swap_quote.go and limit_order.go: the pool, the running state of a quote, and how a
-- fill is booked. The dynamic fee's record is that of models/raydium_clmm.go.
pub mod Books
use soldex.Base.{
  ℕ, zero, suc, ◌+◌, ◌-◌, ◌*◌, ◌/◌, ◌%◌, ◌^◌, ◌≤◌, ◌<◌, ◌≡◌, ◌≢◌, refl, sym, ap, ◌∙◌, ◌↔◌, ◌⊎◌, inl,
  inr, arith, Bool, true, false, not, ◌&&◌, ◌||◌, Option, none, some, List, [], ◌∷◌, ◌++◌, ltb, leb,
  ◌==◌, if◌then◌else◌, Result, ok, err, ◌>>=◌, ◌>>◌, Error, math_overflow, divide_by_zero,
  negative_value, type_cast_failed, fail_if, zero_output, unsupported_curve, unknown_creator_fee_on,
  invalid_pool, amount_overflow, negative_liquidity, swap_disabled, insufficient_data, panicked,
  insufficient_liquidity, price_range_violation, compounding_pool, >>=-eq-ok, ok-injective,
  Bool-cases, Option-cases, ltb→lt, ltb→le, leb→le, leb→lt, ==→eq, lt→ltb, le→ltb, le→leb,
}
use soldex.Base.Int.{ℤ, pos, negsuc, ◌+ℤ◌, ◌-ℤ◌, wrap_i32, eqb_ℤ}
use soldex.Base.Words.{max_u64, u64_mod, add_wrap}
use soldex.Math.Common.{BigInt, nat}

-- The reference index is an int32, the other fields are unsigned words.
pub record RaydiumDynamicFee : Type 0 where
  pub filter_period : ℕ
  pub decay_period : ℕ
  pub reduction_factor : ℕ
  pub dynamic_fee_control : ℕ
  pub max_volatility_accumulator : ℕ
  pub tick_spacing_index_reference : ℤ
  pub volatility_reference : ℕ
  pub volatility_accumulator : ℕ
  pub last_update_timestamp : ℕ

-- `d != RaydiumDynamicFee{}`
unfoldable pub enabled : RaydiumDynamicFee → Bool
enabled d = not (
    d.filter_period == 0
    && d.decay_period == 0
    && d.reduction_factor == 0
    && d.dynamic_fee_control == 0
    && d.max_volatility_accumulator == 0
    && eqb_ℤ d.tick_spacing_index_reference (pos 0)
    && d.volatility_reference == 0
    && d.volatility_accumulator == 0
    && d.last_update_timestamp == 0)

-- The price and the liquidity may be nil; ticks are int32, the other fields unsigned words.
pub record SwapPool : Type 0 where
  pub sqrt_price : Option ℕ
  pub liquidity : Option ℕ
  pub tick_current : ℤ
  pub tick_spacing : ℕ
  pub fee_rate : ℕ
  pub fee_on : ℕ
  pub status : ℕ
  pub dynamic_fee : RaydiumDynamicFee
  pub block_timestamp : ℕ

unfoldable pub is_fee_on_input : SwapPool → Bool → Bool
is_fee_on_input p zero_for_one =
    if p.fee_on == 1 then zero_for_one else if p.fee_on == 2 then not zero_for_one else true

pub record TickBoundary : Type 0 where
  pub tick_index : ℤ
  pub liquidity_net : Option ℤ
  pub initialized : Bool
  pub limit_order_unfilled : ℕ

abbrev pub TickProvider : Type 0
TickProvider = ℤ → Bool → Option TickBoundary

pub record SwapState : Type 0 where
  pub amount_remaining : ℕ
  pub amount_out : ℕ
  pub sqrt_price : ℕ
  pub liquidity : ℕ
  pub tick : ℤ
  pub tick_spacing : ℕ
  pub base_fee_rate : ℕ
  pub tick_spacing_idx : ℤ
  pub dyn : Option RaydiumDynamicFee

unfoldable pub to_u64 : BigInt → Result ℕ
to_u64 none = ok 0
to_u64 (some (negsuc n)) = err amount_overflow
to_u64 (some (pos n)) = if ltb max_u64 n then err amount_overflow else ok n

-- What a fill takes from the remaining input.
unfoldable pub consumed_input : ℕ → BigInt → Bool → Result ℕ
consumed_input amount_in fee false = ok amount_in
consumed_input amount_in fee true = do
  fee_amount ← to_u64 fee
  if ltb (max_u64 - fee_amount) amount_in then err amount_overflow else ok (amount_in + fee_amount)

unfoldable pub apply : SwapState → (amount_in amount_out fee : BigInt) → Bool → Result SwapState
apply s amount_in amount_out fee fee_on_input = do
  in_amount ← to_u64 amount_in
  consumed ← consumed_input in_amount fee fee_on_input
  fail_if (ltb s.amount_remaining consumed) amount_overflow
  out ← to_u64 amount_out
  fail_if (ltb (max_u64 - out) s.amount_out) amount_overflow
  ok (record s {
    amount_remaining = s.amount_remaining - consumed;
    amount_out = s.amount_out + out;
  })

-- `zeroForOne != hasLimitOrders`
unfoldable pub tick_after_cross : ℤ → Bool → Bool → ℤ
tick_after_cross tick_index true true = tick_index
tick_after_cross tick_index false false = tick_index
tick_after_cross tick_index true false = wrap_i32 (tick_index -ℤ pos 1)
tick_after_cross tick_index false true = wrap_i32 (tick_index -ℤ pos 1)

unfoldable pub clamp_target : (tick_price limit : ℕ) → Bool → ℕ
clamp_target tick_price limit zero_for_one =
    if zero_for_one
    then (if ltb tick_price limit then limit else tick_price)
    else if ltb limit tick_price
    then limit
    else tick_price

-- `liquidity.Sign() < 0`
unfoldable pub non_negative : ℤ → Result ℕ
non_negative (pos n) = ok n
non_negative (negsuc n) = err negative_liquidity

unfoldable pub cross_liquidity : ℕ → Option ℤ → Bool → Result ℕ
cross_liquidity liquidity none zero_for_one = ok liquidity
cross_liquidity liquidity (some net) zero_for_one =
    non_negative (if zero_for_one then pos liquidity -ℤ net else pos liquidity +ℤ net)
