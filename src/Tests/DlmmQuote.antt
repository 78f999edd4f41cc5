-- ===== src/Tests/DlmmQuote.antt =====
-- quote/dlmm at concrete inputs.
use soldex.Base.{zero, suc, ◌+◌, ◌^◌, ◌≤◌, ◌≡◌, refl, arith, true, none, some, [], ◌∷◌, Result, ok}
use soldex.Base.Int.{pos, negsuc}
use soldex.Base.Words.{sub_wrap, add_wrap}
use soldex.Math.Common.{nat, div_floor, add_checked, ensure_uint_within}
use soldex.Math.Dlmm.Pow.{pow, pow_abs, pow_loop, mul_if, mul_q64}
use soldex.Math.Dlmm.MulDiv.{within_u128}
use soldex.Math.Dlmm.Price.{compute_price_from_id}
use soldex.Quote.Dlmm.Fees.{
  compute_fee, compute_fee_from_amount, sub_u64, add_u64, min_u64, compute_protocol_fee,
}
use soldex.Quote.Dlmm.Fees.RoundTrip.{compute_fee_from_amount-compute_fee}
use soldex.Quote.Dlmm.Bin.{
  BinSwapQuote, quote_swap_on_bin, get_max_amount_out, get_max_amount_in, fill_bin, settle_bin,
  compute_host_fee, move_reserves, get_amount_out_from_amount_in, get_amount_in_from_amount_out,
}
use soldex.Quote.Dlmm.Bin.Conserves.{Conserves, quote_swap_on_bin-Conserves}
use soldex.Quote.Dlmm.Bin.Price.{Pays}
use soldex.Quote.Dlmm.Pool.{
  SwapPool, BinProvider, total_fee_rate, fee_on_input, update_references,
  update_volatility_accumulator, bin_id_to_array_index,
}
use soldex.Quote.Dlmm.Swap.{
  Walk, QuoteResult, swap_at_bin, exclude_fee, fill_at_bin, include_fee, quote_exact_in_detailed,
  quote_within, walk_bins, walk_round, round_at, after_round, visit_bin, note_index, is_last,
  advance, next_id, start_walk, report,
}
use soldex.Quote.Dlmm.Swap.OneBin.{swap_at_bin-Pays}
use soldex.Quote.Dlmm.Swap.Terminates.{quote_exact_in_detailed-ends}
use soldex.Quote.Dlmm.Swap.Exits.{Exits, AreU64, quote_within-Exits}

-- The fee of 1% on a net amount of 990, and on the gross amount of 1000.
compute_fee_from_amount-compute_fee_example : compute_fee_from_amount 1000 10_000_000 ≡ ok 10
unfolding compute_fee
compute_fee_from_amount-compute_fee_example =
    compute_fee_from_amount-compute_fee 990 10_000_000 10 refl

-- A bin at price one with a fee of 1%, a protocol share of 20% and no host.
abbrev filled : BinSwapQuote
filled = record {
  amount_in_with_fees = 1000;
  amount_out = 990;
  fee = 10;
  protocol_fee_after_host = 2;
  host_fee = 0;
  amount_into_bin = 990;
  new_reserve_x = 5990;
  new_reserve_y = 4010;
}

quote_runs : quote_swap_on_bin 1000 5000 5000 (nat (2 ^ 64)) true 10_000_000 2000 none ≡ ok filled
unfolding quote_swap_on_bin get_max_amount_out get_max_amount_in compute_fee add_u64 fill_bin
    settle_bin compute_protocol_fee compute_fee_from_amount sub_u64 get_amount_out_from_amount_in
    min_u64 compute_host_fee move_reserves
quote_runs = refl

quote_swap_on_bin-Conserves_example : Conserves 1000 5000 5000 (2 ^ 64) 2000 true filled
quote_swap_on_bin-Conserves_example =
    quote_swap_on_bin-Conserves 1000 5000 5000 (2 ^ 64) true 10_000_000 2000 none (omega arith)
      (omega arith) (omega arith) quote_runs

-- A pool with a base fee of 0.1% and no variable fee.
abbrev pool : SwapPool
pool = record {
  active_id = pos 0;
  bin_step = 10;
  base_factor = 10_000;
  base_fee_power_factor = 0;
  variable_fee_control = 0;
  max_volatility_accumulator = 350_000;
  filter_period = 30;
  decay_period = 600;
  reduction_factor = 5000;
  collect_fee_mode = 0;
  volatility_accumulator = 0;
  volatility_reference = 0;
  index_reference = pos 0;
  last_update_timestamp = pos 0;
}

swap_at_bin_runs : swap_at_bin pool 1000 5000 (nat (2 ^ 64)) true true ≡ ok (1000, 999)
unfolding swap_at_bin total_fee_rate exclude_fee fill_at_bin include_fee
    get_amount_in_from_amount_out get_amount_out_from_amount_in compute_fee_from_amount sub_wrap
swap_at_bin_runs = refl

swap_at_bin-Pays_example : (1000 ≤ 1000) × (999 ≤ 5000) × Pays true (2 ^ 64) 1000 999
swap_at_bin-Pays_example =
    swap_at_bin-Pays pool 1000 5000 (2 ^ 64) true true (omega arith) (omega arith) swap_at_bin_runs

-- One bin on each side of zero is cached, 500 of each token in both.
abbrev two_bins : BinProvider
two_bins (pos zero) = some (record { amount_x = 500; amount_y = 500 })
two_bins (pos (suc n)) = none
two_bins (negsuc zero) = some (record { amount_x = 500; amount_y = 500 })
two_bins (negsuc (suc n)) = none

two_bins-AreU64 : AreU64 two_bins
two_bins-AreU64 (pos zero) r h = ground arith
two_bins-AreU64 (pos (suc n)) r h = cc
two_bins-AreU64 (negsuc zero) r h = ground arith
two_bins-AreU64 (negsuc (suc n)) r h = cc

quote_exact_in_detailed-ends_example :
    (r : Result QuoteResult) × (quote_exact_in_detailed pool true 1000 (pos 5) two_bins ≡ some r)
quote_exact_in_detailed-ends_example = quote_exact_in_detailed-ends pool true 1000 (pos 5) two_bins

-- The first bin is emptied, and the second takes the rest.
abbrev crossed : QuoteResult
crossed = record {
  amount_out = 997;
  amount_in_consumed = 1000;
  bin_array_indices = pos 0 ∷ negsuc 0 ∷ [];
}

crossed_runs : quote_within 3 pool true 1000 (pos 5) two_bins ≡ some (ok crossed)
unfolding quote_within walk_bins walk_round round_at after_round visit_bin note_index is_last
    advance next_id start_walk report swap_at_bin total_fee_rate exclude_fee fill_at_bin include_fee
    get_amount_in_from_amount_out get_amount_out_from_amount_in compute_fee compute_fee_from_amount
    compute_price_from_id div_floor add_checked pow pow_abs pow_loop mul_if mul_q64
    ensure_uint_within within_u128 fee_on_input update_references update_volatility_accumulator
    bin_id_to_array_index sub_wrap add_wrap
crossed_runs = refl

quote_within-Exits_example :
    (w : Walk) × (walk_bins 3 true
        (fee_on_input (update_references pool (pos 5)) true)
        two_bins
        (start_walk pool 1000 (pos 5))
      ≡ some (ok w))
    × (1000 + w.amount_left ≡ 1000)
    × (997 ≡ w.total_out)
    × (pos 0 ∷ negsuc 0 ∷ [] ≡ w.indices)
    × Exits true two_bins w
quote_within-Exits_example =
    quote_within-Exits 3 pool true 1000 (pos 5) two_bins two_bins-AreU64 (omega arith) crossed_runs
