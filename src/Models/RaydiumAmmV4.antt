-- ===== src/Models/RaydiumAmmV4.antt =====
-- models/raydium_amm_v4.go: the pools of Raydium AMM v4.
use soldex.Base.{
  invalid_discriminator, owes_more_pnl, ℕ, ◌-◌, Bool, true, false, not, ◌||◌, List, ltb, leb, ◌==◌,
  if◌then◌else◌, Result, ok, err, ◌>>=◌, insufficient_data, invalid_discriminator,
}
use soldex.Models.Bytes.{length, word}
use soldex.Models.PumpPool.{SolanaKeys, key_at}

abbrev pub raydium_amm_v4_pool_size : ℕ
raydium_amm_v4_pool_size = 752

abbrev pub status_swap_only : ℕ
status_swap_only = 6

abbrev pub status_waiting_trade : ℕ
status_waiting_trade = 7

pub record RaydiumAmmV4Pool (keys : SolanaKeys) : Type 0 where
  pub address : keys.PublicKey
  pub status : ℕ
  pub coin_decimals : ℕ
  pub pc_decimals : ℕ
  pub swap_fee_numerator : ℕ
  pub swap_fee_denominator : ℕ
  pub need_take_pnl_coin : ℕ
  pub need_take_pnl_pc : ℕ
  pub pool_open_time : ℕ
  pub coin_vault : keys.PublicKey
  pub pc_vault : keys.PublicKey
  pub coin_mint : keys.PublicKey
  pub pc_mint : keys.PublicKey

-- An account of the size, with the status read.
unfoldable pub decode_fields :
    (keys : SolanaKeys) → List ℕ → (address : keys.PublicKey) → ℕ → Result (RaydiumAmmV4Pool keys)
decode_fields keys bytes address status = do
  coin_decimals ← word 32 40 bytes
  pc_decimals ← word 40 48 bytes
  numerator ← word 176 184 bytes
  denominator ← word 184 192 bytes
  pnl_coin ← word 192 200 bytes
  pnl_pc ← word 200 208 bytes
  open_time ← word 224 232 bytes
  coin_vault ← key_at keys 336 bytes
  pc_vault ← key_at keys 368 bytes
  coin_mint ← key_at keys 400 bytes
  pc_mint ← key_at keys 432 bytes
  ok (record {
    address = address;
    status = status;
    coin_decimals = coin_decimals;
    pc_decimals = pc_decimals;
    swap_fee_numerator = numerator;
    swap_fee_denominator = denominator;
    need_take_pnl_coin = pnl_coin;
    need_take_pnl_pc = pnl_pc;
    pool_open_time = open_time;
    coin_vault = coin_vault;
    pc_vault = pc_vault;
    coin_mint = coin_mint;
    pc_mint = pc_mint;
  })

unfoldable pub decode_raydium_amm_v4_pool :
    (keys : SolanaKeys) → List ℕ → (address : keys.PublicKey) → Result (RaydiumAmmV4Pool keys)
decode_raydium_amm_v4_pool keys bytes address =
    if not (length bytes == raydium_amm_v4_pool_size) then err insufficient_data else (do
      status ← word 0 8 bytes
      if ltb status_waiting_trade status
          then err invalid_discriminator
          else decode_fields keys bytes address status)

-- The error names the amounts.
unfoldable pub net_reserves :
    {keys : SolanaKeys} → RaydiumAmmV4Pool keys → (coin_vault pc_vault : ℕ) → Result (ℕ × ℕ)
net_reserves p coin_vault pc_vault =
    if ltb coin_vault p.need_take_pnl_coin || ltb pc_vault p.need_take_pnl_pc
    then err owes_more_pnl
    else ok (coin_vault - p.need_take_pnl_coin, pc_vault - p.need_take_pnl_pc)

unfoldable pub can_swap_no_orderbook : {keys : SolanaKeys} → RaydiumAmmV4Pool keys → ℕ → Bool
can_swap_no_orderbook p now =
    if p.status == status_swap_only
    then true
    else if p.status == status_waiting_trade
    then leb p.pool_open_time now
    else false
