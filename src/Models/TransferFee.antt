-- ===== src/Models/TransferFee.antt =====
-- models/token2022.go: the transfer fee of a Token-2022 mint.
pub mod Decode
use soldex.Base.{
  ℕ, zero, suc, ◌+◌, ◌-◌, ◌*◌, ◌/◌, ◌%◌, ◌^◌, ◌≤◌, ◌<◌, ◌≡◌, ◌≢◌, refl, sym, ap, ◌∙◌, ◌↔◌, ◌⊎◌, inl,
  inr, arith, Bool, true, false, not, ◌&&◌, ◌||◌, Option, none, some, List, [], ◌∷◌, ◌++◌, ltb, leb,
  ◌==◌, if◌then◌else◌, Result, ok, err, ◌>>=◌, ◌>>◌, Error, math_overflow, divide_by_zero,
  negative_value, type_cast_failed, fail_if, zero_output, unsupported_curve, unknown_creator_fee_on,
  invalid_pool, amount_overflow, negative_liquidity, swap_disabled, insufficient_data,
  owes_more_pnl, pool_not_quotable, invalid_discriminator, panicked, insufficient_liquidity,
  price_range_violation, compounding_pool, >>=-eq-ok, ok-injective, Bool-cases, Option-cases,
  ltb→lt, ltb→le, leb→le, leb→lt, ==→eq, lt→ltb, le→ltb, le→leb,
}
use soldex.Base.Words.{u64_mod, sub_wrap}
use soldex.Base.Division.{le_of_scaled, div_bounds}

abbrev pub max_fee_basis_points : ℕ
max_fee_basis_points = 10_000

pub record TransferFee : Type 0 where
  pub epoch : ℕ
  pub maximum_fee : ℕ
  pub basis_points : ℕ

-- A staged change: the newer setting holds from its epoch on.
pub record TransferFeeConfig : Type 0 where
  pub older : TransferFee
  pub newer : TransferFee

-- The fee before the cap, rounded up.
unfoldable pub uncapped_fee : TransferFee → (amount : ℕ) → ℕ
uncapped_fee f amount =
    (amount * f.basis_points + (max_fee_basis_points - 1)) / max_fee_basis_points

unfoldable pub fee_of : TransferFee → (amount : ℕ) → ℕ
fee_of f amount =
    if (f.basis_points == 0) || (amount == 0)
    then 0
    else if leb u64_mod (uncapped_fee f amount) || ltb f.maximum_fee (uncapped_fee f amount)
    then f.maximum_fee
    else uncapped_fee f amount

unfoldable pub post_fee_amount : TransferFee → (amount : ℕ) → ℕ
unfolding sub_wrap
post_fee_amount f amount = sub_wrap amount (fee_of f amount)

unfoldable pub epoch_fee : TransferFeeConfig → (epoch : ℕ) → TransferFee
epoch_fee c epoch = if leb c.newer.epoch epoch then c.newer else c.older
