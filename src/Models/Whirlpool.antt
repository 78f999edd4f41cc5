-- ===== src/Models/Whirlpool.antt =====
-- models/whirlpool.go: the ticks of an Orca tick array, and the start index of the array that holds a
-- tick.
pub mod Start
use soldex.Base.{
  ℕ, ◌*◌, Bool, not, ◌&&◌, ◌||◌, Option, none, some, List, ltb, ◌==◌, if◌then◌else◌, Result, ok,
  err, ◌>>=◌, panicked,
}
use soldex.Base.Int.{ℤ, pos, negsuc, ◌+ℤ◌, ◌-ℤ◌, ltb_ℤ, quot, rem_abs, wrap_i32}
use soldex.Math.Raydium.Tick.{scale_ℤ}
use soldex.Quote.Raydium.TickArray.{get_elem?}

abbrev pub ticks_per_array : ℕ
ticks_per_array = 88

-- The fields of a tick that a quote reads.
pub record Tick : Type 0 where
  pub initialized : Bool
  pub liquidity_net : ℤ

pub record TickArray : Type 0 where
  pub start_tick_index : ℤ
  pub ticks : List Tick

-- `int32(tickSpacing) * TicksPerArray`, which fits for any uint16.
abbrev pub span_of : (tick_spacing : ℕ) → ℕ
span_of tick_spacing = tick_spacing * ticks_per_array

-- The quotient rounded down, for a span that is not zero.
unfoldable pub start_of : ℤ → (span : ℕ) → ℤ
start_of tick_index span =
    let start = quot tick_index span in
    if ltb_ℤ tick_index (pos 0) && not (rem_abs tick_index span == 0) then start -ℤ pos 1 else start

-- A zero span panics.
unfoldable pub tick_array_start_index : ℤ → (tick_spacing : ℕ) → Result ℤ
tick_array_start_index tick_index tick_spacing =
    let span = span_of tick_spacing in
    if span == 0 then err panicked else ok (wrap_i32 (scale_ℤ (start_of tick_index span) span))

-- `ta.Ticks[offset]`, which panics out of range.
unfoldable pub tick_of {ℓ} : {A : Type ℓ} → List A → ℤ → Result A
tick_of ticks (negsuc n) = err panicked
tick_of ticks (pos offset) = elim (get_elem? ticks offset) [ none ↦ err panicked | some t ↦ ok t ]

-- `none` where the second result is false.
unfoldable pub tick_at : TickArray → ℤ → (tick_spacing : ℕ) → Result (Option Tick)
tick_at ta tick_index tick_spacing =
    let past = wrap_i32 (ta.start_tick_index +ℤ pos (span_of tick_spacing)) in
    let distance = wrap_i32 (tick_index -ℤ ta.start_tick_index) in
    if ltb_ℤ tick_index ta.start_tick_index || not (ltb_ℤ tick_index past)
    then ok none
    else if tick_spacing == 0 || not (rem_abs distance tick_spacing == 0)
    then ok none
    else (do t ← tick_of ta.ticks (quot distance tick_spacing); ok (some t))
