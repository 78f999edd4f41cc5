-- ===== src/Quote/Dlmm/Pool.antt =====
-- quote/dlmm/swap_quote.go: the pool, its volatility state and its fee rate.
use soldex.Base.{
  ℕ, ◌+◌, ◌*◌, ◌/◌, ◌%◌, ◌^◌, Bool, true, not, ◌&&◌, Option, ltb, ◌==◌, if◌then◌else◌,
}
use soldex.Base.Int.{ℤ, pos, negsuc, ◌-ℤ◌, nat_abs, ltb_ℤ, wrap_i64, quot, rem_abs}
use soldex.Base.Words.{u32_mod, u64_mod}
use soldex.Quote.Dlmm.Fees.{max_fee_rate}

abbrev pub min_bin_id : ℤ
min_bin_id = negsuc 443635

abbrev pub max_bin_id : ℤ
max_bin_id = pos 443636

abbrev pub basis_point_max_u64 : ℕ
basis_point_max_u64 = 10_000

abbrev pub collect_fee_mode_only_y : ℕ
collect_fee_mode_only_y = 1

pub record BinReserves : Type 0 where
  pub amount_x : ℕ
  pub amount_y : ℕ

-- `none` is a bin whose array is not cached.
abbrev pub BinProvider : Type 0
BinProvider = ℤ → Option BinReserves

-- Ids are int32, timestamps int64; the other fields are unsigned words.
pub record SwapPool : Type 0 where
  pub active_id : ℤ
  pub bin_step : ℕ
  pub base_factor : ℕ
  pub base_fee_power_factor : ℕ
  pub variable_fee_control : ℕ
  pub max_volatility_accumulator : ℕ
  pub filter_period : ℕ
  pub decay_period : ℕ
  pub reduction_factor : ℕ
  pub collect_fee_mode : ℕ
  pub volatility_accumulator : ℕ
  pub volatility_reference : ℕ
  pub index_reference : ℤ
  pub last_update_timestamp : ℤ

unfoldable pub update_references : SwapPool → ℤ → SwapPool
unfolding ◌-ℤ◌ wrap_i64
update_references pool current_timestamp =
    let elapsed = wrap_i64 (current_timestamp -ℤ pool.last_update_timestamp) in
    if ltb_ℤ elapsed (pos pool.filter_period)
    then pool
    else if ltb_ℤ elapsed (pos pool.decay_period)
    then record pool {
      index_reference = pool.active_id;
      volatility_reference =
          pool.volatility_accumulator * pool.reduction_factor % u64_mod / basis_point_max_u64
          % u32_mod;
    }
    else record pool { index_reference = pool.active_id; volatility_reference = 0 }

unfoldable pub update_volatility_accumulator : SwapPool → SwapPool
unfolding ◌-ℤ◌
update_volatility_accumulator pool =
    let delta_id = nat_abs (pool.index_reference -ℤ pool.active_id) in
    let va = (pool.volatility_reference + delta_id * basis_point_max_u64) % u64_mod in
    let max = pool.max_volatility_accumulator in
    record pool { volatility_accumulator = (if ltb max va then max else va) % u32_mod }

unfoldable pub variable_fee_rate : SwapPool → ℕ
variable_fee_rate pool =
    let vfa_bin = pool.volatility_accumulator * pool.bin_step in
    let square = vfa_bin * vfa_bin in
    if pool.variable_fee_control == 0
    then 0
    else (pool.variable_fee_control * square + 99_999_999_999) / 100_000_000_000

-- The total is at most the maximum where `.Uint64()` reads it.
unfoldable pub total_fee_rate : SwapPool → ℕ
unfolding variable_fee_rate
total_fee_rate pool =
    let base = pool.base_factor * pool.bin_step * 10 * 10 ^ pool.base_fee_power_factor in
    let total = base + variable_fee_rate pool in
    if ltb max_fee_rate total then max_fee_rate else total

unfoldable pub fee_on_input : SwapPool → Bool → Bool
fee_on_input pool swap_for_y =
    if pool.collect_fee_mode == collect_fee_mode_only_y then not swap_for_y else true

abbrev pub max_bin_per_array : ℕ
max_bin_per_array = 70

-- models/bin_array.go
unfoldable pub bin_id_to_array_index : ℤ → ℤ
unfolding quot rem_abs ◌-ℤ◌
bin_id_to_array_index bin_id =
    let idx = quot bin_id max_bin_per_array in
    if ltb_ℤ bin_id (pos 0) && not (rem_abs bin_id max_bin_per_array == 0)
    then idx -ℤ pos 1
    else idx
