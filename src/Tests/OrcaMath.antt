-- ===== src/Tests/OrcaMath.antt =====
-- math/orca at concrete inputs.
use soldex.Base.{◌^◌, ◌≤◌, ◌≡◌, refl, arith, true, ok}
use soldex.Math.Common.{div_ceil}
use soldex.Base.Int.{negsuc, wrap_i32, ◌+ℤ◌, ◌-ℤ◌}
use soldex.Math.Damm.MulDiv.{bit_len}
use soldex.Math.Raydium.Tick.{rsh_64, scale_ℤ, log_loop, normalised}
use soldex.Math.Orca.Tick.{
  min_tick_index, max_tick_index, min_sqrt_price, max_sqrt_price, fold_bits, mul_shift,
  sqrt_price_positive_tick, sqrt_price_negative_tick, sqrt_price_from_tick_index, logbp_x64,
  tick_index_from_sqrt_price,
}
use soldex.Math.Orca.Curve.{
  next_sqrt_price, next_sqrt_price_from_a, denominator_from_a, fixes_a, get_delta_amount_a,
}
use soldex.Math.Orca.Curve.Covers.{next_sqrt_price-Covers}

-- At price one with a million of liquidity, a thousand of token A.
next_runs : next_sqrt_price (2 ^ 64) 1_000_000 1000 true true ≡ ok 18_428_315_757_951_600_016
unfolding next_sqrt_price next_sqrt_price_from_a denominator_from_a fixes_a div_ceil
next_runs = refl

next_sqrt_price-Covers_example :
    get_delta_amount_a (2 ^ 64) 18_428_315_757_951_600_016 1_000_000 true ≤ 1000
unfolding fixes_a
next_sqrt_price-Covers_example =
    next_sqrt_price-Covers (2 ^ 64) 1_000_000 1000 true true (omega arith) next_runs

-- The sqrt prices at the bounds of the ticks, and back.
bounds_run :
    (sqrt_price_from_tick_index max_tick_index ≡ max_sqrt_price)
    × (sqrt_price_from_tick_index min_tick_index ≡ min_sqrt_price)
unfolding sqrt_price_from_tick_index sqrt_price_positive_tick sqrt_price_negative_tick fold_bits
    mul_shift
bounds_run = (refl, refl)

back_run : tick_index_from_sqrt_price (sqrt_price_from_tick_index (negsuc 18_999)) ≡ negsuc 18_999
unfolding tick_index_from_sqrt_price logbp_x64 sqrt_price_from_tick_index sqrt_price_positive_tick
    sqrt_price_negative_tick fold_bits mul_shift wrap_i32 rsh_64 ◌-ℤ◌ scale_ℤ ◌+ℤ◌ bit_len log_loop
    normalised
back_run = refl
