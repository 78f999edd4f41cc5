-- ===== src/Quote/Raydium/TickArray/Stops.antt =====
-- quote/raydium/tick_array.go: the tick that a search of an array finds.
use soldex.Base.{
  ℕ, ◌+◌, ◌≡◌, Bool, true, false, Option, none, some, List, [], ◌∷◌, ◌++◌, if◌then◌else◌,
}
use soldex.Base.Int.{ℤ}
use soldex.Models.Bytes.{length}
use soldex.Quote.Raydium.State.{TickBoundary}
use soldex.Quote.Raydium.TickArray.{ArrayTick, TickArray, boundary, tick_index_at, is_stop}

-- None of the ticks from the `i`-th on is a stop.
unfoldable pub NoStop :
    Bool → (from_tick start : ℤ) → (tick_spacing i : ℕ) → List ArrayTick → Type 0
NoStop z from_tick start spacing i [] = Unit
NoStop z from_tick start spacing i (t ∷ ts) =
    (is_stop z from_tick (tick_index_at start spacing i) t ≡ false)
    × NoStop z from_tick start spacing (i + 1) ts

-- The boundary is that of a stop among the ticks from the `i`-th on, and no tick on its near side is one.
pub record IsNearest (z : Bool) (from_tick start : ℤ) (spacing i : ℕ) (ts : List ArrayTick)
    (b : TickBoundary) : Type 0 where
  pub before : List ArrayTick
  pub tick : ArrayTick
  pub after : List ArrayTick
  pub place : ℕ
  pub split : ts ≡ before ++ tick ∷ after
  pub place_eq : place ≡ i + length before
  pub stop : is_stop z from_tick (tick_index_at start spacing place) tick ≡ true
  pub found : b ≡ boundary tick (tick_index_at start spacing place)
  pub near :
      if z
      then NoStop z from_tick start spacing (place + 1) after
      else NoStop z from_tick start spacing i before

unfoldable pub Searched :
    Bool → (from_tick start : ℤ) → (spacing i : ℕ) → List ArrayTick → Option TickBoundary → Type 0
Searched z from_tick start spacing i ts none = NoStop z from_tick start spacing i ts
Searched z from_tick start spacing i ts (some b) = IsNearest z from_tick start spacing i ts b
