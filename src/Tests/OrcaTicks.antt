-- ===== src/Tests/OrcaTicks.antt =====
-- Runs of the tick arrays of quote/orca at concrete inputs.
use soldex.Base.{ℕ, zero, suc, ◌≡◌, refl, arith, true, Option, none, some, ◌∷◌, ◌++◌, Result, ok}
use soldex.Base.Int.{ℤ, pos, negsuc}
use soldex.Models.Bytes.{length}
use soldex.Models.Whirlpool.{span_of, tick_array_start_index}
use soldex.Models.Whirlpool.Start.{Holds, tick_array_start_index-Holds}
use soldex.Quote.Orca.Swap.{TickBoundary}
use soldex.Quote.Orca.TickArray.{
  TickArray, TickArrayLoader, Walker, empty_ticks, search_array, new_tick_array_walker, next,
}
use soldex.Quote.Orca.TickArray.Nearest.{IsNearest, search_array-IsNearest}
use soldex.Quote.Orca.TickArray.Starts.{new_tick_array_walker-ends}

tick_array_start_index-Holds_example :
    (start : ℤ) × (tick_array_start_index (negsuc 99) 64 ≡ ok start)
    × Holds (span_of 64) start (negsuc 99)
tick_array_start_index-Holds_example =
    tick_array_start_index-Holds (negsuc 99) 64 (omega arith) (omega arith) (omega arith)

-- One initialized tick, at the offset 40.
abbrev array_with_one : TickArray
array_with_one =
    empty_ticks 40 ++ record { initialized = true; liquidity_net = pos 7 } ∷ empty_ticks 47

array_with_one-length : length array_with_one ≡ 88
unfolding length empty_ticks
array_with_one-length = refl

search_array-IsNearest_example :
    (found : Option ℕ) × (search_array array_with_one (pos 60) true ≡ ok found)
    × IsNearest array_with_one 60 true found
search_array-IsNearest_example =
    search_array-IsNearest array_with_one 60 true array_with_one-length (omega arith)

-- Only the array that starts at zero exists.
abbrev load_one : TickArrayLoader
load_one (pos zero) = ok (some array_with_one)
load_one (pos (suc n)) = ok none
load_one (negsuc n) = ok none

new_tick_array_walker-ends_example :
    (w : Walker) × (new_tick_array_walker (pos 6_000) 64 true load_one ≡ ok w)
    × ((r : Result (Walker × Option TickBoundary)) × (next w (pos 6_000) true ≡ some r))
new_tick_array_walker-ends_example =
    new_tick_array_walker-ends (pos 6_000) (pos 6_000) 64 true true load_one (omega arith)
      (omega arith) (omega arith)
