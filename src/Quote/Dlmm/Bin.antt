-- ===== src/Quote/Dlmm/Bin.antt =====
-- quote/dlmm/bin_quote.go: a swap against one bin at a constant price.
pub mod Price
pub mod Conserves
use soldex.Base.{
  ℕ, zero, suc, ◌+◌, ◌-◌, ◌*◌, ◌/◌, ◌%◌, ◌^◌, ◌≤◌, ◌<◌, Bool, true, false, not, ◌&&◌, ◌||◌, Option,
  none, some, List, [], ◌∷◌, ◌++◌, ltb, leb, ◌==◌, if◌then◌else◌, Result, ok, err, ◌>>=◌, ◌>>◌,
  Error, math_overflow, divide_by_zero, negative_value, type_cast_failed, fail_if, zero_output,
  unsupported_curve, unknown_creator_fee_on,
}
use soldex.Math.Common.{BigInt, nat, big_to_uint64_checked}
use soldex.Math.Dlmm.MulDiv.{rounding_up, rounding_down, safe_shl_div_cast, safe_mul_shr_cast}
use soldex.Math.Dlmm.Pow.{scale_offset}
use soldex.Quote.Dlmm.Fees.{
  min_u64, add_u64, sub_u64, compute_fee, compute_fee_from_amount, compute_protocol_fee,
  basis_point_max,
}

pub record BinSwapQuote : Type 0 where
  pub amount_in_with_fees : ℕ
  pub amount_out : ℕ
  pub fee : ℕ
  pub protocol_fee_after_host : ℕ
  pub host_fee : ℕ
  pub amount_into_bin : ℕ
  pub new_reserve_x : ℕ
  pub new_reserve_y : ℕ

unfoldable pub get_max_amount_out : ℕ → ℕ → Bool → ℕ
get_max_amount_out reserve_x reserve_y swap_for_y = if swap_for_y then reserve_y else reserve_x

unfoldable pub get_max_amount_in : ℕ → BigInt → Bool → Result ℕ
unfolding safe_shl_div_cast safe_mul_shr_cast
get_max_amount_in max_amount_out price swap_for_y =
    if swap_for_y
    then safe_shl_div_cast 64 (nat max_amount_out) price scale_offset rounding_up
    else safe_mul_shr_cast 64 (nat max_amount_out) price scale_offset rounding_up

unfoldable pub get_amount_in_from_amount_out : ℕ → BigInt → Bool → Result ℕ
unfolding get_max_amount_in
get_amount_in_from_amount_out amount_out price swap_for_y =
    get_max_amount_in amount_out price swap_for_y

unfoldable pub get_amount_out_from_amount_in : ℕ → BigInt → Bool → Result ℕ
unfolding safe_shl_div_cast safe_mul_shr_cast
get_amount_out_from_amount_in amount_in price swap_for_y =
    if swap_for_y
    then safe_mul_shr_cast 64 price (nat amount_in) scale_offset rounding_down
    else safe_shl_div_cast 64 (nat amount_in) price scale_offset rounding_down

-- The variables that the branch on the amount assigns.
pub record BinFill : Type 0 where
  pub amount_in_with_fees : ℕ
  pub amount_out : ℕ
  pub fee : ℕ
  pub protocol_fee : ℕ

-- `if amountIn > maxAmountInWithFee { … } else { … }`: the bin is emptied, or the input used up.
unfoldable pub fill_bin :
    (amount_in max_amount_out max_fee max_amount_in_with_fee : ℕ)
    → BigInt
    → Bool
    → ℕ
    → ℕ
    → Result BinFill
fill_bin amount_in max_amount_out max_fee max_amount_in_with_fee price swap_for_y total_fee_rate
      protocol_share_bps =
    if ltb max_amount_in_with_fee amount_in
    then (do
      protocol_fee ← compute_protocol_fee max_fee protocol_share_bps
      ok (record {
        amount_in_with_fees = max_amount_in_with_fee;
        amount_out = max_amount_out;
        fee = max_fee;
        protocol_fee = protocol_fee;
      }))
    else (do
      fee ← compute_fee_from_amount amount_in total_fee_rate
      amount_in_after_fee ← sub_u64 amount_in fee
      out ← get_amount_out_from_amount_in amount_in_after_fee price swap_for_y
      protocol_fee ← compute_protocol_fee fee protocol_share_bps
      ok (record {
        amount_in_with_fees = amount_in;
        amount_out = min_u64 out max_amount_out;
        fee = fee;
        protocol_fee = protocol_fee;
      }))

-- `hostFeeBps` may be nil.
unfoldable pub compute_host_fee : ℕ → Option ℕ → Result ℕ
unfolding big_to_uint64_checked
compute_host_fee protocol_fee none = ok 0
compute_host_fee protocol_fee (some host_fee_bps) =
    big_to_uint64_checked (nat (protocol_fee * host_fee_bps / basis_point_max))

-- The new reserves, x first.
unfoldable pub move_reserves :
    (reserve_x reserve_y amount_into_bin amount_out : ℕ) → Bool → Result (ℕ × ℕ)
move_reserves reserve_x reserve_y amount_into_bin amount_out swap_for_y =
    if swap_for_y
    then (do x ← add_u64 reserve_x amount_into_bin; y ← sub_u64 reserve_y amount_out; ok (x, y))
    else (do y ← add_u64 reserve_y amount_into_bin; x ← sub_u64 reserve_x amount_out; ok (x, y))

-- The end of `QuoteSwapOnBin`, from the host fee on.
unfoldable pub settle_bin :
    (reserve_x reserve_y : ℕ) → Bool → Option ℕ → BinFill → Result BinSwapQuote
settle_bin reserve_x reserve_y swap_for_y host_fee_bps fill = do
  host_fee ← compute_host_fee fill.protocol_fee host_fee_bps
  protocol_fee_after_host ← sub_u64 fill.protocol_fee host_fee
  amount_into_bin ← sub_u64 fill.amount_in_with_fees fill.fee
  (x, y) ← move_reserves reserve_x reserve_y amount_into_bin fill.amount_out swap_for_y
  ok (record {
    amount_in_with_fees = fill.amount_in_with_fees;
    amount_out = fill.amount_out;
    fee = fill.fee;
    protocol_fee_after_host = protocol_fee_after_host;
    host_fee = host_fee;
    amount_into_bin = amount_into_bin;
    new_reserve_x = x;
    new_reserve_y = y;
  })

unfoldable pub quote_swap_on_bin :
    (amount_in reserve_x reserve_y : ℕ) → BigInt → Bool → ℕ → ℕ → Option ℕ → Result BinSwapQuote
quote_swap_on_bin amount_in reserve_x reserve_y price swap_for_y total_fee_rate protocol_share_bps
      host_fee_bps =
    do
      let max_amount_out = get_max_amount_out reserve_x reserve_y swap_for_y
      max_amount_in_no_fee ← get_max_amount_in max_amount_out price swap_for_y
      max_fee ← compute_fee max_amount_in_no_fee total_fee_rate
      max_amount_in_with_fee ← add_u64 max_amount_in_no_fee max_fee
      fill ←
          fill_bin amount_in max_amount_out max_fee max_amount_in_with_fee price swap_for_y
            total_fee_rate protocol_share_bps
      settle_bin reserve_x reserve_y swap_for_y host_fee_bps fill
