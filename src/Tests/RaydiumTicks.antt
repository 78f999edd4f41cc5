-- ===== src/Tests/RaydiumTicks.antt =====
-- quote/raydium/tick_array.go at concrete inputs.
use soldex.Base.{
  ◌≡◌, refl, arith, true, false, Option, none, some, [], ◌∷◌, if◌then◌else◌, Result, ok,
}
use soldex.Base.Int.{pos, negsuc, eqb_ℤ}
use soldex.Models.Bytes.{length}
use soldex.Quote.Raydium.State.{TickBoundary}
use soldex.Quote.Raydium.TickArray.{
  ArrayTick, TickArray, TickArrayLoader, Walker, new_tick_array_walker, next,
}
use soldex.Quote.Raydium.TickArray.Walks.{IsWithin, next-ends}

abbrev empty_tick : ArrayTick
empty_tick = record { has_liquidity = false; liquidity_net = pos 0; limit_order_unfilled = 0 }

abbrev orders_tick : ArrayTick
orders_tick = record { has_liquidity = false; liquidity_net = pos 0; limit_order_unfilled = 7 }

-- The first ticks of an array, the third with orders.
abbrev orders_array : TickArray
orders_array = record {
  start_tick_index = negsuc 599;
  ticks = empty_tick ∷ empty_tick ∷ orders_tick ∷ empty_tick ∷ [];
}

-- One array, below zero.
abbrev one_array : TickArrayLoader
one_array start z = if eqb_ℤ start (negsuc 599) then ok (some orders_array) else ok none

abbrev walker : Walker
walker = new_tick_array_walker (negsuc 5) 10 (pos 2) one_array

walker-IsWithin : IsWithin 2 walker
unfolding new_tick_array_walker length
walker-IsWithin = record { limit = refl; loaded = omega arith; place = omega arith }

next-ends_example :
    (q : Result (Walker × Option TickBoundary)) × (next 3 walker (negsuc 5) true ≡ some q)
unfolding new_tick_array_walker
next-ends_example = next-ends 3 2 walker (negsuc 5) true walker-IsWithin (omega arith)
