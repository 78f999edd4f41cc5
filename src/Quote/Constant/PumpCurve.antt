-- ===== src/Quote/Constant/PumpCurve.antt =====
-- quote/pumpbc/swap_quote.go: the pump.fun bonding curve, over its virtual reserves.
-- `.Uint64()` keeps the low 64 bits. `none` is the panic of a division by zero.
use soldex.Base.{ℕ, ◌+◌, ◌*◌, ◌/◌, ◌%◌, Option, none, some, ◌==◌, if◌then◌else◌}
use soldex.Base.Words.{u64_mod, add_wrap, sub_wrap}

abbrev pub fee_denominator : ℕ
fee_denominator = 10_000

unfoldable pub buy_exact_in : (v_sol_reserves v_token_reserves sol_in fee_bps : ℕ) → Option ℕ
unfolding add_wrap
buy_exact_in v_sol_reserves v_token_reserves sol_in fee_bps =
    let divisor = add_wrap fee_denominator fee_bps in
    let eff = sol_in * fee_denominator / divisor in
    let den = v_sol_reserves + eff in
    if divisor == 0
    then none
    else some (if den == 0 then 0 else v_token_reserves * eff / den % u64_mod)

unfoldable pub sell_exact_in : (v_token_reserves v_sol_reserves token_in fee_bps : ℕ) → ℕ
unfolding sub_wrap
sell_exact_in v_token_reserves v_sol_reserves token_in fee_bps =
    let num = v_sol_reserves * token_in in
    let den = v_token_reserves + token_in in
    let gross = num / den in
    if den == 0 then 0 else gross * sub_wrap fee_denominator fee_bps / fee_denominator % u64_mod
