-- ===== src/Quote/Dlmm/Swap.antt =====
-- quote/dlmm/swap_quote.go: one bin filled, and the walk over the bins.
-- The price of a bin is `compute_price_from_id`; the cache in front of it does not change a result
-- (Math/Dlmm/Price).
pub mod OneBin
pub mod Terminates
pub mod Exits
use mathlib.Core.Option
use soldex.Base.{
  ℕ, zero, suc, ◌+◌, ◌-◌, ◌*◌, ◌/◌, ◌%◌, ◌^◌, ◌≤◌, ◌<◌, Bool, true, false, not, ◌&&◌, ◌||◌, Option,
  none, some, List, [], ◌∷◌, ◌++◌, ltb, leb, ◌==◌, if◌then◌else◌, Result, ok, err, ◌>>=◌, ◌>>◌,
  Error, math_overflow, divide_by_zero, negative_value, type_cast_failed, fail_if, zero_output,
  unsupported_curve, unknown_creator_fee_on,
}
use soldex.Base.Int.{ℤ, pos, negsuc, ◌+ℤ◌, ◌-ℤ◌, ltb_ℤ, eqb_ℤ, wrap_i32}
use soldex.Base.Words.{add_wrap, sub_wrap}
use soldex.Math.Common.{BigInt, nat}
use soldex.Math.Dlmm.Price.{compute_price_from_id}
use soldex.Quote.Dlmm.Fees.{compute_fee, compute_fee_from_amount}
use soldex.Quote.Dlmm.Bin.{get_amount_in_from_amount_out, get_amount_out_from_amount_in}
use soldex.Quote.Dlmm.Pool.{
  SwapPool, BinReserves, BinProvider, min_bin_id, max_bin_id, update_references,
  update_volatility_accumulator, total_fee_rate, fee_on_input, bin_id_to_array_index,
}

-- `if feeOnInput { excludedIn = amountIn - fee }`
unfoldable pub exclude_fee : Bool → ℕ → ℕ → Result ℕ
exclude_fee false amount rate = ok amount
exclude_fee true amount rate = do
  fee ← compute_fee_from_amount amount rate
  ok (sub_wrap amount fee)

-- The output and the input left over, for a bin that takes `max_in`.
unfoldable pub fill_at_bin : (excluded_in max_in max_out : ℕ) → BigInt → Bool → Result (ℕ × ℕ)
fill_at_bin excluded_in max_in max_out price swap_for_y =
    if leb max_in excluded_in
    then ok (max_out, excluded_in - max_in)
    else (do out ← get_amount_out_from_amount_in excluded_in price swap_for_y; ok (out, 0))

-- The input that is drawn, with its fee.
unfoldable pub include_fee : (amount_in excluded_in leftover : ℕ) → Bool → ℕ → Result ℕ
include_fee amount_in excluded_in leftover fee_on_input rate =
    let consumed_excluded = excluded_in - leftover in
    if leftover == 0
    then ok amount_in
    else if fee_on_input
    then (do fee ← compute_fee consumed_excluded rate; ok (add_wrap consumed_excluded fee))
    else ok consumed_excluded

-- The input consumed and the output, fees taken.
unfoldable pub swap_at_bin :
    SwapPool → (amount_in max_out : ℕ) → BigInt → Bool → Bool → Result (ℕ × ℕ)
swap_at_bin pool amount_in max_out price swap_for_y fee_on_input = do
  let rate = total_fee_rate pool
  excluded_in ← exclude_fee fee_on_input amount_in rate
  max_in ← get_amount_in_from_amount_out max_out price swap_for_y
  (out, leftover) ← fill_at_bin excluded_in max_in max_out price swap_for_y
  included_fee_amount_in ← include_fee amount_in excluded_in leftover fee_on_input rate
  excluded_out ← exclude_fee (not fee_on_input) out rate
  ok (included_fee_amount_in, excluded_out)

pub record QuoteResult : Type 0 where
  pub amount_out : ℕ
  pub amount_in_consumed : ℕ
  pub bin_array_indices : List ℤ

-- The variables of the loop. `last_index` is none until the first array is noted.
pub record Walk : Type 0 where
  pub pool : SwapPool
  pub amount_left : ℕ
  pub total_out : ℕ
  pub indices : List ℤ
  pub last_index : Option ℤ

unfoldable pub is_last : Option ℤ → ℤ → Bool
is_last none index = false
is_last (some last) index = eqb_ℤ index last

-- Appends the index of the active bin's array unless it was the last one noted.
unfoldable pub note_index : Walk → Walk
note_index w =
    let index = bin_id_to_array_index w.pool.active_id in
    if is_last w.last_index index
    then w
    else record w { indices = w.indices ++ (index ∷ []); last_index = some index }

-- The body's swap: nothing for an empty bin.
unfoldable pub visit_bin : (swap_for_y fee_on_input : Bool) → BinReserves → Walk → Result Walk
visit_bin swap_for_y fee_on_input reserves w =
    let max_out = if swap_for_y then reserves.amount_y else reserves.amount_x in
    if ltb 0 max_out
    then (do
      let pool = update_volatility_accumulator w.pool
      price ← compute_price_from_id pool.active_id pool.bin_step
      (consumed, out) ← swap_at_bin pool w.amount_left max_out (nat price) swap_for_y fee_on_input
      ok (record w {
        pool = pool;
        amount_left = sub_wrap w.amount_left consumed;
        total_out = add_wrap w.total_out out;
      }))
    else ok w

unfoldable pub next_id : Bool → ℤ → ℤ
unfolding ◌+ℤ◌ ◌-ℤ◌ wrap_i32
next_id swap_for_y active_id =
    wrap_i32 (if swap_for_y then active_id -ℤ pos 1 else active_id +ℤ pos 1)

-- How one round of the loop ends.
pub data Round : Type 0 where
  stop : Walk → Round
  again : Walk → Round

-- `if amountLeft > 0 { … pool.ActiveID = next }`
unfoldable pub advance : Bool → Walk → Round
advance swap_for_y w =
    let next = next_id swap_for_y w.pool.active_id in
    if w.amount_left == 0
    then stop w
    else if ltb_ℤ next min_bin_id || ltb_ℤ max_bin_id next
    then stop w
    else again (record w { pool = record (w.pool) { active_id = next } })

-- The loop's body, for what the provider answers.
unfoldable pub round_at :
    (swap_for_y fee_on_input : Bool) → Option BinReserves → Walk → Result Round
round_at swap_for_y fee_on_input none w = ok (stop w)
round_at swap_for_y fee_on_input (some reserves) w = do
  w' ← visit_bin swap_for_y fee_on_input reserves (note_index w)
  ok (advance swap_for_y w')

unfoldable pub walk_round : (swap_for_y fee_on_input : Bool) → BinProvider → Walk → Result Round
walk_round swap_for_y fee_on_input bins w =
    round_at swap_for_y fee_on_input (bins w.pool.active_id) w

-- What follows a round: the error, the end, or the rest of the loop.
unfoldable pub after_round : (Walk → Option (Result Walk)) → Result Round → Option (Result Walk)
after_round rest (err e) = some (err e)
after_round rest (ok (stop w)) = some (ok w)
after_round rest (ok (again w)) = rest w

-- `for amountLeft > 0`, on fuel; the outer `none` means that the fuel ran out.
unfoldable pub walk_bins :
    ℕ → (swap_for_y fee_on_input : Bool) → BinProvider → Walk → Option (Result Walk)
walk_bins zero swap_for_y fee_on_input bins w = none
walk_bins (suc fuel) swap_for_y fee_on_input bins w =
    if w.amount_left == 0
    then some (ok w)
    else after_round (λ w'. walk_bins fuel swap_for_y fee_on_input bins w')
        (walk_round swap_for_y fee_on_input bins w)

-- A round for each bin id, and one more for a pool that starts outside the range.
abbrev pub walk_fuel : ℕ
walk_fuel = 887_275

unfoldable pub start_walk : SwapPool → ℕ → ℤ → Walk
start_walk pool amount_in current_timestamp = record {
  pool = update_references pool current_timestamp;
  amount_left = amount_in;
  total_out = 0;
  indices = [];
  last_index = none;
}

-- What `QuoteExactInDetailed` returns of the final state.
unfoldable pub report : ℕ → Result Walk → Result QuoteResult
unfolding sub_wrap
report amount_in r = do
  w ← r
  ok (record {
    amount_out = w.total_out;
    amount_in_consumed = sub_wrap amount_in w.amount_left;
    bin_array_indices = w.indices;
  })

-- On a given fuel; `quote_exact_in_detailed` gives `walk_fuel`.
unfoldable pub quote_within :
    ℕ → SwapPool → Bool → ℕ → ℤ → BinProvider → Option (Result QuoteResult)
quote_within fuel pool swap_for_y amount_in current_timestamp bins =
    let w = start_walk pool amount_in current_timestamp in
    Option.map (report amount_in)
      (walk_bins fuel swap_for_y (fee_on_input w.pool swap_for_y) bins w)

unfoldable pub quote_exact_in_detailed :
    SwapPool → Bool → ℕ → ℤ → BinProvider → Option (Result QuoteResult)
unfolding quote_within
quote_exact_in_detailed = quote_within walk_fuel

unfoldable pub quote_exact_in : SwapPool → Bool → ℕ → ℤ → BinProvider → Option (Result ℕ)
quote_exact_in pool swap_for_y amount_in current_timestamp bins =
    Option.map (λ r. r >>= λ res. ok res.amount_out)
      (quote_exact_in_detailed pool swap_for_y amount_in current_timestamp bins)
