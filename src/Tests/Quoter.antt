-- ===== src/Tests/Quoter.antt =====
-- soldex.go, from_models.go: quoters of Raydium pools, of example accounts.
use soldex.Base.{
  ℕ, ◌+◌, ◌<◌, ◌≡◌, refl, arith, true, false, none, some, [], ◌==◌, ok, err, pool_not_quotable,
}
use soldex.Base.Words.{add_wrap, sub_wrap}
use soldex.Models.PumpPool.{SolanaKeys}
use soldex.Models.RaydiumCpmm
use soldex.Models.RaydiumCpmm.{
  RaydiumCpmmPool, RaydiumCpmmConfig, effective_creator_fee_rate, is_swap_disabled, saturating_sub,
}
use soldex.Models.RaydiumAmmV4
use soldex.Models.RaydiumAmmV4.{RaydiumAmmV4Pool, can_swap_no_orderbook}
use soldex.Quote.Constant.RayCpmm.{
  creator_fee_on_input, swap_base_input, ceil_fee, input_fee_rate, curve_out,
}
use soldex.Quote.Constant.RayAmmV4.{swap_base_in, input_fee}
use soldex.Quoter.{raydium_cpmm, raydium_amm_v4}
use soldex.Quoter.FromModels.{wrapped, over_reserves, from_raydium_cpmm, from_raydium_amm_v4}
use soldex.Quoter.Keeps.{Quotes, from_raydium_cpmm-Quotes, from_raydium_amm_v4-Quotes}
use soldex.Quote.Constant.Product.{KeepsProduct}
use soldex.Quote.Constant.FluxBeam.{FluxBeamFees, swap_exact_in, quote_exact_in, calculate_fee}
use soldex.Models.TransferFee.{uncapped_fee, fee_of, post_fee_amount, epoch_fee}
use soldex.Models.FluxBeam.{FluxBeamPool}
use soldex.Quoter.FluxBeam.{FluxBeamSide, arriving, quote_sides, flux_beam, from_flux_beam_pool}
use soldex.Quoter.FluxBeam.Keeps.{from_flux_beam_pool-KeepsSides}

abbrev keys : SolanaKeys
keys = record {
  PublicKey = ℕ;
  zero_key = 0;
  from_bytes = λ bytes. 7;
  is_zero = λ k. k == 0;
  equals = λ k l. k == l;
  wsol_mint = 1;
  usdc_mint = 2;
  usdt_mint = 3;
  pool_authority = λ k. some (k + 100);
}

-- With a creator fee on token 0.
abbrev cpmm_pool : RaydiumCpmmPool keys
cpmm_pool = record {
  address = 9;
  amm_config = 8;
  token_0_vault = 10;
  token_1_vault = 11;
  token_0_mint = 1;
  token_1_mint = 2;
  token_0_program = 12;
  token_1_program = 12;
  mint_0_decimals = 9;
  mint_1_decimals = 6;
  status = 3;
  protocol_fees_token_0 = 100;
  protocol_fees_token_1 = 200;
  fund_fees_token_0 = 10;
  fund_fees_token_1 = 20;
  creator_fee_on = 1;
  enable_creator_fee = true;
  creator_fees_token_0 = 1;
  creator_fees_token_1 = 2;
}

abbrev cpmm_config : RaydiumCpmmConfig keys
cpmm_config = record { address = 8; trade_fee_rate = 2500; creator_fee_rate = 500 }

-- It waits for the time 1000 to open.
abbrev amm_v4_pool : RaydiumAmmV4Pool keys
amm_v4_pool = record {
  address = 9;
  status = 7;
  coin_decimals = 9;
  pc_decimals = 6;
  swap_fee_numerator = 25;
  swap_fee_denominator = 10_000;
  need_take_pnl_coin = 5;
  need_take_pnl_pc = 7;
  pool_open_time = 1000;
  coin_vault = 10;
  pc_vault = 11;
  coin_mint = 1;
  pc_mint = 2;
}

from_raydium_cpmm-Quotes_example :
    (111 < 1_000_111)
    × (222 < 2_000_222)
    × Quotes 1_000_000 2_000_000 1000 false (raydium_cpmm 1_000_000 2_000_000 2500 500 1)
unfolding RaydiumCpmm.net_reserves saturating_sub add_wrap from_raydium_cpmm is_swap_disabled
    wrapped creator_fee_on_input over_reserves effective_creator_fee_rate
from_raydium_cpmm-Quotes_example =
    from_raydium_cpmm-Quotes cpmm_pool cpmm_config 1_000_111 2_000_222
      (raydium_cpmm 1_000_000 2_000_000 2500 500 1) 1000 false refl

from_raydium_amm_v4-Quotes_example :
    (5 < 1_000_005)
    × (7 < 2_000_007)
    × Quotes 1_000_000 2_000_000 1000 true (raydium_amm_v4 1_000_000 2_000_000 25 10_000)
unfolding from_raydium_amm_v4 can_swap_no_orderbook wrapped RaydiumAmmV4.net_reserves over_reserves
from_raydium_amm_v4-Quotes_example =
    from_raydium_amm_v4-Quotes amm_v4_pool 1_000_005 2_000_007 1000
      (raydium_amm_v4 1_000_000 2_000_000 25 10_000) 1000 true refl

quotes_amm_v4 : raydium_amm_v4 1_000_000 2_000_000 25 10_000 1000 true ≡ ok 1992
unfolding raydium_amm_v4 swap_base_in input_fee
quotes_amm_v4 = refl

quotes_cpmm : raydium_cpmm 1_000_000 2_000_000 2500 500 1 1000 true ≡ ok 1992
unfolding raydium_cpmm creator_fee_on_input swap_base_input ceil_fee input_fee_rate curve_out
quotes_cpmm = refl

-- It does not open before its time.
refuses_early :
    from_raydium_amm_v4 (some amm_v4_pool) 1_000_005 2_000_007 999 ≡ err pool_not_quotable
unfolding from_raydium_amm_v4 can_swap_no_orderbook
refuses_early = refl

abbrev fees : FluxBeamFees
fees = record {
  trade_fee_numerator = 25;
  trade_fee_denominator = 10_000;
  owner_trade_fee_numerator = 5;
  owner_trade_fee_denominator = 10_000;
  owner_withdraw_fee_numerator = 0;
  owner_withdraw_fee_denominator = 0;
  host_fee_numerator = 20;
  host_fee_denominator = 100;
}

abbrev flux_pool : FluxBeamPool keys
flux_pool = record {
  address = 9;
  bump_seed = 255;
  token_program = 12;
  vault_a = 10;
  vault_b = 11;
  pool_mint = 13;
  mint_a = 1;
  mint_b = 2;
  pool_fee_account = 14;
  fees = fees;
  curve_type = 0;
  calculator = [];
}

-- One percent from the epoch 10 on, and nothing before.
abbrev charged : FluxBeamSide
charged = record {
  reserve = 1_000_000;
  transfer_fee = some (record {
    older = record { epoch = 0; maximum_fee = 0; basis_points = 0 };
    newer = record { epoch = 10; maximum_fee = 5000; basis_points = 100 };
  });
}

abbrev free : FluxBeamSide
free = record { reserve = 2_000_000; transfer_fee = none }

flux_runs : flux_beam charged free 0 fees 12 1000 true ≡ ok 1972
unfolding flux_beam quote_sides arriving post_fee_amount epoch_fee fee_of uncapped_fee sub_wrap
    quote_exact_in swap_exact_in calculate_fee
flux_runs = refl

flux_made :
    from_flux_beam_pool keys (some flux_pool) charged free 12
    ≡ ok (flux_beam charged free 0 fees 12)
unfolding from_flux_beam_pool
flux_made = refl

from_flux_beam_pool-KeepsSides_example :
    (0 < 1_000_000)
    × (0 < 2_000_000)
    × (◌≡◌ {A = ℕ} 0 0)
    × KeepsProduct 1_000_000 2_000_000 1000 1972
from_flux_beam_pool-KeepsSides_example =
    from_flux_beam_pool-KeepsSides keys flux_pool charged free 12 (flux_beam charged free 0 fees 12)
      1000 1972 true (omega arith, omega arith) (omega arith) (omega arith) (omega arith)
      (omega arith) flux_made flux_runs
