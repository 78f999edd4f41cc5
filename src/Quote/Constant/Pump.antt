-- ===== src/Quote/Constant/Pump.antt =====
-- quote/pump/swap_quote.go: the Pump-AMM.
-- `.Uint64()` keeps the low 64 bits. `none` is the panic of a division by zero.
pub mod Keeps
use soldex.Base.{
  ℕ, zero, suc, ◌+◌, ◌-◌, ◌*◌, ◌/◌, ◌%◌, ◌^◌, ◌≤◌, ◌<◌, Bool, true, false, not, ◌&&◌, ◌||◌, Option,
  none, some, List, [], ◌∷◌, ◌++◌, ltb, leb, ◌==◌, if◌then◌else◌, Result, ok, err, ◌>>=◌, ◌>>◌,
  Error, math_overflow, divide_by_zero, negative_value, type_cast_failed, fail_if, zero_output,
  unsupported_curve, unknown_creator_fee_on, insufficient_liquidity, price_range_violation,
  compounding_pool,
}
use soldex.Base.Words.{u64_mod, add_wrap, sub_wrap}

abbrev pub fee_denominator : ℕ
fee_denominator = 10_000

unfoldable pub sell_exact_in : (base_reserve quote_reserve amount_in fee_bps : ℕ) → ℕ
unfolding sub_wrap
sell_exact_in base_reserve quote_reserve amount_in fee_bps =
    let num = quote_reserve * amount_in in
    let den = base_reserve + amount_in in
    let gross = num / den in
    if den == 0 then 0 else gross * sub_wrap fee_denominator fee_bps / fee_denominator % u64_mod

unfoldable pub buy_exact_in : (quote_reserve base_reserve amount_in fee_bps : ℕ) → Option ℕ
unfolding add_wrap
buy_exact_in quote_reserve base_reserve amount_in fee_bps =
    let divisor = add_wrap fee_denominator fee_bps in
    let eff = amount_in * fee_denominator / divisor in
    let den = quote_reserve + eff in
    if divisor == 0 then none else some (if den == 0 then 0 else base_reserve * eff / den % u64_mod)
