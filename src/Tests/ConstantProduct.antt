-- ===== src/Tests/ConstantProduct.antt =====
-- The constant-product venues at concrete inputs.
use soldex.Base.{ℕ, ◌≤◌, ◌≡◌, refl, arith, false, some, ok}
use soldex.Quote.Constant.Product.{KeepsProduct}
use soldex.Quote.Constant.RayCpmm.{swap_base_input}
use soldex.Quote.Constant.RayCpmm.Settles.{Settles, swap_base_input-Settles}
use soldex.Quote.Constant.FluxBeam.{FluxBeamFees, swap_exact_in, quote_exact_in, calculate_fee}
use soldex.Quote.Constant.Pump.{sell_exact_in, buy_exact_in}
use soldex.Quote.Constant.Pump.Keeps.{buy_exact_in-KeepsProduct, sell_exact_in-buy_exact_in}

swap_base_input-Settles_example :
    Settles 1_000_000 2_000_000 1000 2500 500 false
      (swap_base_input 1_000_000 2_000_000 1000 2500 500 false)
swap_base_input-Settles_example =
    swap_base_input-Settles 1_000_000 2_000_000 1000 2500 500 false (omega arith) (omega arith)
      (omega arith)

abbrev fees : FluxBeamFees
fees = record {
  trade_fee_numerator = 25;
  trade_fee_denominator = 10_000;
  owner_trade_fee_numerator = 5;
  owner_trade_fee_denominator = 10_000;
  owner_withdraw_fee_numerator = 0;
  owner_withdraw_fee_denominator = 0;
  host_fee_numerator = 20;
  host_fee_denominator = 100;
}

flux_runs : quote_exact_in 0 1_000_000 2_000_000 1000 fees ≡ ok 1992
unfolding quote_exact_in swap_exact_in calculate_fee
flux_runs = refl

buy_exact_in-KeepsProduct_example :
    (out : ℕ) × (buy_exact_in 2_000_000 1_000_000 1000 100 ≡ some out)
    × KeepsProduct 2_000_000 1_000_000 1000 out
buy_exact_in-KeepsProduct_example =
    buy_exact_in-KeepsProduct 2_000_000 1_000_000 1000 100 (omega arith)

bought : buy_exact_in 2_000_000 1_000_000 1000 100 ≡ some 494
unfolding buy_exact_in
bought = refl

sell_exact_in-buy_exact_in_example : sell_exact_in 999_506 2_001_000 494 100 ≤ 1000
sell_exact_in-buy_exact_in_example =
    sell_exact_in-buy_exact_in 2_000_000 1_000_000 1000 100 100 494 (omega arith) (omega arith)
      bought
