-- ===== src/Quote/Raydium/TickArray.antt =====
-- quote/raydium/tick_array.go: the walk over the initialized tick arrays of a swap. The loader is a
-- parameter.
pub mod Stops
pub mod Walks
use soldex.Base.{
  ℕ, zero, suc, ◌+◌, ◌-◌, ◌*◌, ◌/◌, ◌%◌, ◌^◌, ◌≤◌, ◌<◌, ◌≡◌, ◌≢◌, refl, sym, ap, ◌∙◌, ◌↔◌, ◌⊎◌, inl,
  inr, arith, Bool, true, false, not, ◌&&◌, ◌||◌, Option, none, some, List, [], ◌∷◌, ◌++◌, ltb, leb,
  ◌==◌, if◌then◌else◌, Result, ok, err, ◌>>=◌, ◌>>◌, Error, math_overflow, divide_by_zero,
  negative_value, type_cast_failed, fail_if, zero_output, unsupported_curve, unknown_creator_fee_on,
  invalid_pool, amount_overflow, negative_liquidity, swap_disabled, insufficient_data,
  invalid_discriminator, panicked, insufficient_liquidity, price_range_violation, compounding_pool,
  >>=-eq-ok, ok-injective, Bool-cases, Option-cases, ltb→lt, ltb→le, leb→le, leb→lt, ==→eq, lt→ltb,
  le→ltb, le→leb,
}
use soldex.Base.Int.{ℤ, pos, negsuc, ◌+ℤ◌, ◌-ℤ◌, ltb_ℤ, eqb_ℤ, quot, rem_abs, wrap_i32}
use soldex.Base.Words.{add_wrap}
use soldex.Math.Raydium.Tick.{scale_ℤ}
use soldex.Models.Bytes.{length}
use soldex.Models.RaydiumTick.{
  RaydiumTick, RaydiumTickArray, has_liquidity, limit_order_unfilled, span_of,
  raydium_tick_array_start_index,
}
use soldex.Quote.Raydium.State.{TickBoundary}

pub record ArrayTick : Type 0 where
  pub has_liquidity : Bool
  pub liquidity_net : ℤ
  pub limit_order_unfilled : ℕ

pub record TickArray : Type 0 where
  pub start_tick_index : ℤ
  pub ticks : List ArrayTick

unfoldable pub array_tick : RaydiumTick → ArrayTick
array_tick t = record {
  has_liquidity = has_liquidity t;
  liquidity_net = t.liquidity_net;
  limit_order_unfilled = limit_order_unfilled t;
}

unfoldable pub array_ticks : List RaydiumTick → List ArrayTick
array_ticks [] = []
array_ticks (t ∷ ts) = array_tick t ∷ array_ticks ts

unfoldable pub tick_array_from_model : RaydiumTickArray → TickArray
tick_array_from_model a = record {
  start_tick_index = a.start_tick_index;
  ticks = array_ticks a.ticks;
}

-- The array, `none` where there is none, or the loader's error.
abbrev pub TickArrayLoader : Type 0
TickArrayLoader = ℤ → Bool → Result (Option TickArray)

pub record Walker : Type 0 where
  pub tick_current : ℤ
  pub tick_spacing : ℕ
  pub max_arrays : ℤ
  pub load : TickArrayLoader
  pub arrays : List TickArray
  pub current : ℕ
  pub done : Bool
  pub failure : Option Error

unfoldable pub new_tick_array_walker :
    (tick_current : ℤ) → (tick_spacing : ℕ) → (max_arrays : ℤ) → TickArrayLoader → Walker
new_tick_array_walker tick_current tick_spacing max_arrays load = record {
  tick_current = tick_current;
  tick_spacing = tick_spacing;
  max_arrays = max_arrays;
  load = load;
  arrays = [];
  current = 0;
  done = false;
  failure = none;
}

unfoldable pub next_start : Walker → ℤ → Bool → ℤ
next_start w start zero_for_one =
    let span = pos (span_of w.tick_spacing) in
    wrap_i32 (if zero_for_one then start -ℤ span else start +ℤ span)

unfoldable pub stops : ArrayTick → Bool
stops t = t.has_liquidity || ltb 0 t.limit_order_unfilled

unfoldable pub boundary : ArrayTick → ℤ → TickBoundary
boundary t tick_index = record {
  tick_index = tick_index;
  liquidity_net = some (t.liquidity_net);
  initialized = t.has_liquidity;
  limit_order_unfilled = t.limit_order_unfilled;
}

-- `tickArray.StartTickIndex + int32(i)*w.tickSpacing`
unfoldable pub tick_index_at : (start : ℤ) → (tick_spacing i : ℕ) → ℤ
tick_index_at start tick_spacing i = wrap_i32 (start +ℤ wrap_i32 (pos (i * tick_spacing)))

-- The test of a tick in each direction.
unfoldable pub is_stop : Bool → (from_tick tick_index : ℤ) → ArrayTick → Bool
is_stop true from_tick tick_index t = not (ltb_ℤ from_tick tick_index) && stops t
is_stop false from_tick tick_index t = ltb_ℤ from_tick tick_index && stops t

-- The loops over the ticks from the `i`-th on: from the last down, and from the first up.
unfoldable pub search_down :
    (start : ℤ) → (tick_spacing i : ℕ) → List ArrayTick → (from_tick : ℤ) → Option TickBoundary
search_down start tick_spacing i [] from_tick = none
search_down start tick_spacing i (t ∷ ts) from_tick =
    elim (search_down start tick_spacing (i + 1) ts from_tick) [
      | some b ↦ some b
      | none ↦
          let tick_index = tick_index_at start tick_spacing i in
          if is_stop true from_tick tick_index t then some (boundary t tick_index) else none
    ]

unfoldable pub search_up :
    (start : ℤ) → (tick_spacing i : ℕ) → List ArrayTick → (from_tick : ℤ) → Option TickBoundary
search_up start tick_spacing i [] from_tick = none
search_up start tick_spacing i (t ∷ ts) from_tick =
    let tick_index = tick_index_at start tick_spacing i in
    let later = search_up start tick_spacing (i + 1) ts from_tick in
    if is_stop false from_tick tick_index t then some (boundary t tick_index) else later

unfoldable pub search : Walker → TickArray → (from_tick : ℤ) → Bool → Option TickBoundary
search w a from_tick zero_for_one =
    if zero_for_one
    then search_down a.start_tick_index w.tick_spacing 0 a.ticks from_tick
    else search_up a.start_tick_index w.tick_spacing 0 a.ticks from_tick

unfoldable pub get_elem? {ℓ} : {A : Type ℓ} → List A → ℕ → Option A
get_elem? [] i = none
get_elem? (x ∷ xs) zero = some x
get_elem? (x ∷ xs) (suc i) = get_elem? xs i

-- The last array, if there is one.
unfoldable pub last_of {ℓ} : {A : Type ℓ} → List A → Option A
last_of [] = none
last_of (x ∷ xs) = elim (last_of xs) [ none ↦ some x | some y ↦ some y ]

unfoldable pub start_to_load : Walker → Bool → Result ℤ
start_to_load w zero_for_one = do
  first ← raydium_tick_array_start_index w.tick_current w.tick_spacing
  ok (elim (last_of w.arrays) [
    | none ↦ first
    | some a ↦ next_start w a.start_tick_index zero_for_one
  ])

-- What the loader answered: the walker after it, and whether the loop goes on.
unfoldable pub take_loaded : Walker → Result (Option TickArray) → Walker × Bool
take_loaded w (err e) = (record w { failure = some e }, false)
take_loaded w (ok none) = (record w { done = true }, false)
take_loaded w (ok (some a)) = (record w { arrays = w.arrays ++ a ∷ [] }, true)

abbrev pub is_some : Option Error → Bool
is_some none = false
is_some (some e) = true

-- One round of the loop of `array`.
unfoldable pub load_round : Walker → Bool → Result (Walker × Bool)
load_round w zero_for_one =
    if w.done || is_some w.failure || eqb_ℤ (pos (length w.arrays)) w.max_arrays
    then ok (w, false)
    else (do start ← start_to_load w zero_for_one; ok (take_loaded w (w.load start zero_for_one)))

-- The rest of the loop, where it goes on.
unfoldable pub go_on : (Walker → Result (Walker × Bool)) → Walker × Bool → Result (Walker × Bool)
go_on rest (w, true) = rest w
go_on rest (w, false) = ok (w, false)

-- The loop, which adds an array in each round that goes on.
unfoldable pub load_rounds : (missing : ℕ) → Walker → Bool → Result (Walker × Bool)
load_rounds zero w zero_for_one = ok (w, true)
load_rounds (suc missing) w zero_for_one =
    load_round w zero_for_one >>= go_on (λ w'. load_rounds missing w' zero_for_one)

unfoldable pub array : Walker → ℕ → Bool → Result (Walker × Option TickArray)
array w i zero_for_one = do
  (w', complete) ← load_rounds (i + 1 - length w.arrays) w zero_for_one
  ok (w', if complete then get_elem? w'.arrays i else none)

-- What `Next` does with the array: the boundary, or the rest of the loop.
unfoldable pub visit_array :
    (Walker → Option (Result (Walker × Option TickBoundary)))
    → (from_tick : ℤ) → Bool
    → Result (Walker × Option TickArray)
    → Option (Result (Walker × Option TickBoundary))
visit_array rest from_tick zero_for_one (err e) = some (err e)
visit_array rest from_tick zero_for_one (ok (w, none)) = some (ok (w, none))
visit_array rest from_tick zero_for_one (ok (w, some a)) =
    elim (search w a from_tick zero_for_one) [
      | some b ↦ some (ok (w, some b))
      | none ↦ rest (record w { current = w.current + 1 })
    ]

-- On fuel, a round for each array.
unfoldable pub next :
    ℕ → Walker → (from_tick : ℤ) → Bool → Option (Result (Walker × Option TickBoundary))
next zero w from_tick zero_for_one = none
next (suc fuel) w from_tick zero_for_one =
    visit_array (λ w'. next fuel w' from_tick zero_for_one) from_tick zero_for_one
      (array w w.current zero_for_one)

-- The starts of the arrays from the `i`-th on, and the walker at the end.
unfoldable pub starts_from : (count i : ℕ) → Walker → Bool → Result (Walker × List ℤ)
starts_from zero i w zero_for_one = ok (w, [])
starts_from (suc count) i w zero_for_one = array w i zero_for_one >>= λ (w', found). elim found [
  | none ↦ ok (w', [])
  | some a ↦ do
    (w'', starts) ← starts_from count (i + 1) w' zero_for_one
    ok (w'', a.start_tick_index ∷ starts)
]

unfoldable pub swap_tick_array_starts :
    (tick_current : ℤ)
    → (tick_spacing : ℕ) → Bool
    → (max_arrays : ℕ) → TickArrayLoader
    → Result (List ℤ × Option Error)
swap_tick_array_starts tick_current tick_spacing zero_for_one max_arrays load = do
  (w, starts) ←
      starts_from max_arrays 0
        (new_tick_array_walker tick_current tick_spacing (pos max_arrays) load) zero_for_one
  ok (starts, w.failure)
