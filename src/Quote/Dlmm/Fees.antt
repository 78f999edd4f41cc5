-- ===== src/Quote/Dlmm/Fees.antt =====
-- quote/dlmm/helpers.go and fees.go: uint64 helpers and the fee formulas of LbPair.
pub mod RoundTrip
use soldex.Base.{
  ℕ, zero, suc, ◌+◌, ◌-◌, ◌*◌, ◌/◌, ◌%◌, ◌^◌, ◌≤◌, ◌<◌, Bool, true, false, not, ◌&&◌, ◌||◌, Option,
  none, some, List, [], ◌∷◌, ◌++◌, ltb, leb, ◌==◌, if◌then◌else◌, Result, ok, err, ◌>>=◌, ◌>>◌,
  Error, math_overflow, divide_by_zero, negative_value, type_cast_failed, fail_if, zero_output,
  unsupported_curve, unknown_creator_fee_on,
}
use soldex.Base.Words.{max_u64, add_wrap, sub_wrap}
use soldex.Math.Common.{nat, div_floor, big_to_uint64_checked}

unfoldable pub min_u64 : ℕ → ℕ → ℕ
min_u64 a b = if ltb a b then a else b

unfoldable pub add_u64 : ℕ → ℕ → Result ℕ
unfolding add_wrap
add_u64 a b = if ltb (max_u64 - b) a then err math_overflow else ok (add_wrap a b)

unfoldable pub sub_u64 : ℕ → ℕ → Result ℕ
unfolding sub_wrap
sub_u64 a b = if ltb a b then err math_overflow else ok (sub_wrap a b)

abbrev pub fee_precision : ℕ
fee_precision = 1_000_000_000

abbrev pub max_fee_rate : ℕ
max_fee_rate = 100_000_000

abbrev pub basis_point_max : ℕ
basis_point_max = 10_000

unfoldable pub compute_fee : ℕ → ℕ → Result ℕ
unfolding div_floor big_to_uint64_checked
compute_fee amount total_fee_rate =
    if leb fee_precision total_fee_rate then err math_overflow else (do
      let denominator = fee_precision - total_fee_rate
      q ← div_floor (nat (amount * total_fee_rate + (denominator - 1))) (nat denominator)
      big_to_uint64_checked (nat q))

unfoldable pub compute_fee_from_amount : ℕ → ℕ → Result ℕ
unfolding div_floor big_to_uint64_checked
compute_fee_from_amount amount_with_fees total_fee_rate = do
  q ← div_floor (nat (amount_with_fees * total_fee_rate + (fee_precision - 1))) (nat fee_precision)
  big_to_uint64_checked (nat q)

unfoldable pub compute_protocol_fee : ℕ → ℕ → Result ℕ
unfolding div_floor big_to_uint64_checked
compute_protocol_fee fee_amount protocol_share_bps = do
  q ← div_floor (nat (fee_amount * protocol_share_bps)) (nat basis_point_max)
  big_to_uint64_checked (nat q)

unfoldable pub total_fee_rate : ℕ → ℕ → ℕ
unfolding add_wrap
total_fee_rate base_fee_rate variable_fee_rate =
    let total = add_wrap base_fee_rate variable_fee_rate in
    if ltb max_fee_rate total then max_fee_rate else total
