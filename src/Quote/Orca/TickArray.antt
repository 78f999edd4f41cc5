-- ===== src/Quote/Orca/TickArray.antt =====
-- quote/orca/tick_array.go: the walk over the tick arrays of a swap. The loader is a parameter.
pub mod Ends
pub mod Starts
pub mod Nearest
use soldex.Base.{
  ℕ, zero, suc, ◌+◌, ◌-◌, ◌*◌, ◌/◌, ◌%◌, ◌^◌, ◌≤◌, ◌<◌, ◌≡◌, ◌≢◌, refl, sym, ap, ◌∙◌, ◌↔◌, ◌⊎◌, inl,
  inr, arith, Bool, true, false, not, ◌&&◌, ◌||◌, Option, none, some, List, [], ◌∷◌, ◌++◌, ltb, leb,
  ◌==◌, if◌then◌else◌, Result, ok, err, ◌>>=◌, ◌>>◌, Error, math_overflow, divide_by_zero,
  negative_value, type_cast_failed, fail_if, zero_output, unsupported_curve, unknown_creator_fee_on,
  invalid_pool, amount_overflow, negative_liquidity, swap_disabled, insufficient_data,
  invalid_discriminator, panicked, insufficient_liquidity, price_range_violation, compounding_pool,
  >>=-eq-ok, ok-injective, Bool-cases, Option-cases, ltb→lt, ltb→le, leb→le, leb→lt, ==→eq, lt→ltb,
  le→ltb, le→leb,
}
use soldex.Base.Int.{ℤ, pos, negsuc, ◌+ℤ◌, ◌-ℤ◌, ltb_ℤ, eqb_ℤ, quot, rem_abs, wrap_i32}
use soldex.Math.Raydium.Tick.{scale_ℤ}
use soldex.Math.Orca.Tick.{min_tick_index, max_tick_index}
use soldex.Models.Whirlpool
use soldex.Models.Whirlpool.{ticks_per_array, span_of, tick_array_start_index, tick_of}
use soldex.Quote.Raydium.TickArray.{last_of, is_some}
use soldex.Quote.Orca.Swap.{TickBoundary}

pub record ArrayTick : Type 0 where
  pub initialized : Bool
  pub liquidity_net : ℤ

-- The ticks of an array, of which there are `ticks_per_array`.
abbrev pub TickArray : Type 0
TickArray = List ArrayTick

unfoldable pub array_ticks : List Whirlpool.Tick → TickArray
array_ticks [] = []
array_ticks (t ∷ ts) =
    record { initialized = t.initialized; liquidity_net = t.liquidity_net } ∷ array_ticks ts

unfoldable pub tick_array_from_model : Whirlpool.TickArray → TickArray
tick_array_from_model a = array_ticks a.ticks

-- `TickArray{}`
unfoldable pub empty_ticks : ℕ → TickArray
empty_ticks zero = []
empty_ticks (suc n) = record { initialized = false; liquidity_net = pos 0 } ∷ empty_ticks n

-- The array, `none` where the account does not exist, or the loader's error.
abbrev pub TickArrayLoader : Type 0
TickArrayLoader = ℤ → Result (Option TickArray)

-- For a span that is not zero.
unfoldable pub valid_start_tick : ℤ → (tick_spacing : ℕ) → Bool
valid_start_tick start tick_spacing =
    let span = span_of tick_spacing in
    if ltb_ℤ start min_tick_index || ltb_ℤ max_tick_index start
    then (if ltb_ℤ min_tick_index start
        then false
        else eqb_ℤ start (wrap_i32 (min_tick_index -ℤ pos (span - rem_abs min_tick_index span))))
    else rem_abs start span == 0

-- The three offsets, in spans.
unfoldable pub start_offsets : (tick_current_index base : ℤ) → (tick_spacing : ℕ) → Bool → List ℤ
start_offsets tick_current_index base tick_spacing a_to_b =
    let next = wrap_i32 (tick_current_index +ℤ pos tick_spacing) in
    let past = wrap_i32 (base +ℤ pos (span_of tick_spacing)) in
    if a_to_b
    then pos 0 ∷ negsuc 0 ∷ negsuc 1 ∷ []
    else if not (ltb_ℤ next past)
    then pos 1 ∷ pos 2 ∷ pos 3 ∷ []
    else pos 0 ∷ pos 1 ∷ pos 2 ∷ []

unfoldable pub valid_starts : (base : ℤ) → (tick_spacing : ℕ) → List ℤ → List ℤ
valid_starts base tick_spacing [] = []
valid_starts base tick_spacing (offset ∷ offsets) =
    let start = wrap_i32 (base +ℤ wrap_i32 (scale_ℤ offset (span_of tick_spacing))) in
    let rest = valid_starts base tick_spacing offsets in
    if valid_start_tick start tick_spacing then start ∷ rest else rest

unfoldable pub swap_tick_array_starts : ℤ → (tick_spacing : ℕ) → Bool → Result (List ℤ)
swap_tick_array_starts tick_current_index tick_spacing a_to_b = do
  base ← tick_array_start_index tick_current_index tick_spacing
  ok (valid_starts base tick_spacing (start_offsets tick_current_index base tick_spacing a_to_b))

pub record Walker : Type 0 where
  pub tick_spacing : ℕ
  pub starts : List ℤ
  pub load : TickArrayLoader
  pub start : ℤ
  pub loaded : Bool
  pub ticks : TickArray
  pub failure : Option Error

-- A walker that holds no array.
unfoldable pub walker_over : (tick_spacing : ℕ) → List ℤ → TickArrayLoader → Walker
walker_over tick_spacing starts load = record {
  tick_spacing = tick_spacing;
  starts = starts;
  load = load;
  start = pos 0;
  loaded = false;
  ticks = empty_ticks ticks_per_array;
  failure = none;
}

unfoldable pub new_tick_array_walker :
    ℤ → (tick_spacing : ℕ) → Bool → TickArrayLoader → Result Walker
new_tick_array_walker tick_current_index tick_spacing a_to_b load = do
  starts ← swap_tick_array_starts tick_current_index tick_spacing a_to_b
  ok (walker_over tick_spacing starts load)

-- The loops over the held array: from an offset down, and up for as many ticks.
unfoldable pub search_down : TickArray → (offset : ℕ) → Result (Option ℕ)
search_down ticks zero = do t ← tick_of ticks (pos 0); ok (if t.initialized then some 0 else none)
search_down ticks (suc i) = do
  t ← tick_of ticks (pos (suc i))
  if t.initialized then ok (some (suc i)) else search_down ticks i

unfoldable pub search_up : TickArray → (count offset : ℕ) → Result (Option ℕ)
search_up ticks zero offset = ok none
search_up ticks (suc count) offset = do
  t ← tick_of ticks (pos offset)
  if t.initialized then ok (some offset) else search_up ticks count (offset + 1)

unfoldable pub search_array : TickArray → ℤ → Bool → Result (Option ℕ)
search_array ticks (pos offset) true = search_down ticks offset
search_array ticks (negsuc n) true = ok none
search_array ticks (pos offset) false = search_up ticks (ticks_per_array - offset) offset
search_array ticks (negsuc n) false = err panicked

unfoldable pub boundary : Walker → (start : ℤ) → (offset : ℕ) → Result TickBoundary
boundary w start offset = do
  t ← tick_of w.ticks (pos offset)
  ok (record {
    tick_index = wrap_i32 (start +ℤ wrap_i32 (pos (offset * w.tick_spacing)));
    liquidity_net = some (t.liquidity_net);
    initialized = true;
  })

unfoldable pub reachable : List ℤ → ℤ → Bool
reachable [] start = false
reachable (s ∷ starts) start = eqb_ℤ start s || reachable starts start

-- What the loader answered, and whether the array is held.
unfoldable pub hold : Walker → ℤ → Result (Option TickArray) → Walker × Bool
hold w start (err e) = (record w { failure = some e }, false)
hold w start (ok none) =
    (record w { ticks = empty_ticks ticks_per_array; start = start; loaded = true }, true)
hold w start (ok (some ticks)) = (record w { ticks = ticks; start = start; loaded = true }, true)

unfoldable pub load_array : Walker → ℤ → Walker × Bool
load_array w start =
    if w.loaded && eqb_ℤ w.start start then (w, true) else hold w start (w.load start)

unfoldable pub floor_to_spacing : ℤ → (tick_spacing : ℕ) → Result ℤ
floor_to_spacing tick tick_spacing =
    let floored = wrap_i32 (scale_ℤ (quot tick tick_spacing) tick_spacing) in
    if tick_spacing == 0
    then err panicked
    else if ltb_ℤ tick (pos 0) && not (rem_abs tick tick_spacing == 0)
    then ok (wrap_i32 (floored -ℤ pos tick_spacing))
    else ok floored

-- An edge, which changes no liquidity.
abbrev pub edge : ℤ → TickBoundary
edge tick_index = record { tick_index = tick_index; liquidity_net = none; initialized = false }

-- `start == w.starts[len(w.starts)-1]`, of starts that are not empty.
unfoldable pub is_last : List ℤ → ℤ → Bool
is_last starts start = elim (last_of starts) [ none ↦ false | some s ↦ eqb_ℤ start s ]

-- The edge that ends the walk at an array without a tick to stop at, if one does.
unfoldable pub edge_of : Walker → (start : ℤ) → Bool → Option TickBoundary
edge_of w start true =
    if not (ltb_ℤ min_tick_index start)
    then some (edge min_tick_index)
    else if is_last w.starts start
    then some (edge start)
    else none
edge_of w start false =
    let past = wrap_i32 (start +ℤ pos (span_of w.tick_spacing)) in
    if ltb_ℤ max_tick_index past
    then some (edge max_tick_index)
    else if is_last w.starts start
    then some (edge (wrap_i32 (past -ℤ pos 1)))
    else none

-- The next array and the tick to search from.
unfoldable pub next_array : (tick_spacing : ℕ) → (start : ℤ) → Bool → ℤ × ℤ
next_array tick_spacing start true =
    let span = pos (span_of tick_spacing) in
    let start' = wrap_i32 (start -ℤ span) in
    (start', wrap_i32 (wrap_i32 (start' +ℤ span) -ℤ pos tick_spacing))
next_array tick_spacing start false =
    let start' = wrap_i32 (start +ℤ pos (span_of tick_spacing)) in (start', start')

-- The rest of a round, for what the search of the held array found.
unfoldable pub after_search :
    (ℤ × ℤ → Option (Result (Walker × Option TickBoundary)))
    → Walker
    → (start : ℤ) → Bool
    → Result (Option ℕ)
    → Option (Result (Walker × Option TickBoundary))
after_search rest w start a_to_b (err e) = some (err e)
after_search rest w start a_to_b (ok (some offset)) =
    some (do b ← boundary w start offset; ok (w, some b))
after_search rest w start a_to_b (ok none) = elim (edge_of w start a_to_b) [
  | some b ↦ some (ok (w, some b))
  | none ↦ rest (next_array w.tick_spacing start a_to_b)
]

-- A round at an array that can be reached, once it is held.
unfoldable pub visit_held :
    (Walker → ℤ × ℤ → Option (Result (Walker × Option TickBoundary)))
    → Walker × Bool
    → (start tick : ℤ) → Bool
    → Option (Result (Walker × Option TickBoundary))
visit_held rest (w, false) start tick a_to_b = some (ok (w, none))
visit_held rest (w, true) start tick a_to_b =
    after_search (rest w) w start a_to_b
      (search_array w.ticks (quot (wrap_i32 (tick -ℤ start)) w.tick_spacing) a_to_b)

-- The loop of `Next`, on fuel: a round for each array.
unfoldable pub next_loop :
    ℕ → Walker → (ℤ × ℤ) → Bool → Option (Result (Walker × Option TickBoundary))
next_loop zero w at_array a_to_b = none
next_loop (suc fuel) w at_array a_to_b = elim (reachable w.starts at_array.0) [
  | false ↦ some (ok (w, none))
  | true ↦
      visit_held (λ w' p. next_loop fuel w' p a_to_b) (load_array w at_array.0) at_array.0
        at_array.1 a_to_b
]

unfoldable pub first_tick : (from_tick : ℤ) → (tick_spacing : ℕ) → Bool → Result ℤ
first_tick from_tick tick_spacing true = ok from_tick
first_tick from_tick tick_spacing false = do
  floored ← floor_to_spacing from_tick tick_spacing
  ok (wrap_i32 (floored +ℤ pos tick_spacing))

-- The first array and the tick to search from.
unfoldable pub first_array : (from_tick : ℤ) → (tick_spacing : ℕ) → Bool → Result (ℤ × ℤ)
first_array from_tick tick_spacing a_to_b = do
  tick ← first_tick from_tick tick_spacing a_to_b
  start ← tick_array_start_index tick tick_spacing
  ok (start, tick)

-- Four rounds are enough.
unfoldable pub next :
    Walker → (from_tick : ℤ) → Bool → Option (Result (Walker × Option TickBoundary))
next w from_tick a_to_b =
    if is_some w.failure
    then some (ok (w, none))
    else elim (first_array from_tick w.tick_spacing a_to_b) [
      | err e ↦ some (err e)
      | ok at_array ↦ next_loop 4 w at_array a_to_b
    ]
