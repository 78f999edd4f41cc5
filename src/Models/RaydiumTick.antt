-- ===== src/Models/RaydiumTick.antt =====
-- models/raydium_clmm.go: the ticks of an array, and the start index of the array that holds a tick.
use soldex.Base.{
  ℕ, ◌*◌, Bool, not, ◌&&◌, ◌||◌, List, ltb, ◌==◌, if◌then◌else◌, Result, ok, err, panicked,
}
use soldex.Base.Int.{ℤ, pos, ◌-ℤ◌, ltb_ℤ, quot, rem_abs, wrap_i32}
use soldex.Base.Words.{add_wrap}
use soldex.Math.Raydium.Tick.{scale_ℤ}

abbrev pub raydium_ticks_per_array : ℕ
raydium_ticks_per_array = 60

-- The fields of a tick that a quote reads; the gross liquidity is a 128-bit word in two halves.
pub record RaydiumTick : Type 0 where
  pub tick : ℤ
  pub liquidity_net : ℤ
  pub liquidity_gross_lo : ℕ
  pub liquidity_gross_hi : ℕ
  pub orders_amount : ℕ
  pub part_filled_orders_left : ℕ

pub record RaydiumTickArray : Type 0 where
  pub start_tick_index : ℤ
  pub ticks : List RaydiumTick

unfoldable pub has_liquidity : RaydiumTick → Bool
has_liquidity t = not (t.liquidity_gross_lo == 0) || not (t.liquidity_gross_hi == 0)

unfoldable pub has_limit_orders : RaydiumTick → Bool
has_limit_orders t = ltb 0 t.orders_amount || ltb 0 t.part_filled_orders_left

unfoldable pub limit_order_unfilled : RaydiumTick → ℕ
limit_order_unfilled t = add_wrap t.orders_amount t.part_filled_orders_left

unfoldable pub initialized : RaydiumTick → Bool
initialized t = has_liquidity t || has_limit_orders t

abbrev pub span_of : (tick_spacing : ℕ) → ℕ
span_of tick_spacing = tick_spacing * raydium_ticks_per_array

-- A zero span panics.
unfoldable pub raydium_tick_array_start_index : ℤ → (tick_spacing : ℕ) → Result ℤ
raydium_tick_array_start_index tick_index tick_spacing =
    let span = span_of tick_spacing in
    let start = quot tick_index span in
    if span == 0
    then err panicked
    else ok (
        wrap_i32 (
          scale_ℤ
            (if ltb_ℤ tick_index (pos 0) && not (rem_abs tick_index span == 0)
              then start -ℤ pos 1
              else start)
            span))
