-- ===== src/Models/RaydiumCpmm.antt =====
-- models/raydium_cpmm.go: the pools and the fee configurations of Raydium CP-Swap.
use soldex.Base.{
  invalid_discriminator, ℕ, ◌-◌, ◌/◌, ◌%◌, ◌^◌, Bool, false, Option, none, some, List, [], ◌∷◌, ltb,
  ◌==◌, if◌then◌else◌, Result, ok, err, ◌>>=◌, insufficient_data, invalid_discriminator,
}
use soldex.Base.Words.{add_wrap}
use soldex.Models.Bytes.{length, slice, word, flag}
use soldex.Models.PumpPool.{SolanaKeys, same_bytes, key_at}

abbrev pub raydium_cpmm_pool_discriminator : List ℕ
raydium_cpmm_pool_discriminator = 247 ∷ 237 ∷ 227 ∷ 245 ∷ 215 ∷ 195 ∷ 222 ∷ 70 ∷ []

abbrev pub raydium_cpmm_config_discriminator : List ℕ
raydium_cpmm_config_discriminator = 218 ∷ 244 ∷ 33 ∷ 104 ∷ 203 ∷ 203 ∷ 43 ∷ 111 ∷ []

pub record RaydiumCpmmPool (keys : SolanaKeys) : Type 0 where
  pub address : keys.PublicKey
  pub amm_config : keys.PublicKey
  pub token_0_vault : keys.PublicKey
  pub token_1_vault : keys.PublicKey
  pub token_0_mint : keys.PublicKey
  pub token_1_mint : keys.PublicKey
  pub token_0_program : keys.PublicKey
  pub token_1_program : keys.PublicKey
  pub mint_0_decimals : ℕ
  pub mint_1_decimals : ℕ
  pub status : ℕ
  pub protocol_fees_token_0 : ℕ
  pub protocol_fees_token_1 : ℕ
  pub fund_fees_token_0 : ℕ
  pub fund_fees_token_1 : ℕ
  pub creator_fee_on : ℕ
  pub enable_creator_fee : Bool
  pub creator_fees_token_0 : ℕ
  pub creator_fees_token_1 : ℕ

pub record RaydiumCpmmConfig (keys : SolanaKeys) : Type 0 where
  pub address : keys.PublicKey
  pub trade_fee_rate : ℕ
  pub creator_fee_rate : ℕ

-- The account past its discriminator; `b` of the code starts at the offset 8.
unfoldable pub decode_pool_fields :
    (keys : SolanaKeys) → List ℕ → (address : keys.PublicKey) → Result (RaydiumCpmmPool keys)
decode_pool_fields keys bytes address = do
  amm_config ← key_at keys 8 bytes
  vault_0 ← key_at keys 72 bytes
  vault_1 ← key_at keys 104 bytes
  mint_0 ← key_at keys 168 bytes
  mint_1 ← key_at keys 200 bytes
  program_0 ← key_at keys 232 bytes
  program_1 ← key_at keys 264 bytes
  status ← word 329 330 bytes
  decimals_0 ← word 331 332 bytes
  decimals_1 ← word 332 333 bytes
  protocol_0 ← word 341 349 bytes
  protocol_1 ← word 349 357 bytes
  fund_0 ← word 357 365 bytes
  fund_1 ← word 365 373 bytes
  creator_fee_on ← word 389 390 bytes
  enabled ← flag 390 bytes
  creator_0 ← word 397 405 bytes
  creator_1 ← word 405 413 bytes
  ok (record {
    address = address;
    amm_config = amm_config;
    token_0_vault = vault_0;
    token_1_vault = vault_1;
    token_0_mint = mint_0;
    token_1_mint = mint_1;
    token_0_program = program_0;
    token_1_program = program_1;
    mint_0_decimals = decimals_0;
    mint_1_decimals = decimals_1;
    status = status;
    protocol_fees_token_0 = protocol_0;
    protocol_fees_token_1 = protocol_1;
    fund_fees_token_0 = fund_0;
    fund_fees_token_1 = fund_1;
    creator_fee_on = creator_fee_on;
    enable_creator_fee = enabled;
    creator_fees_token_0 = creator_0;
    creator_fees_token_1 = creator_1;
  })

unfoldable pub decode_raydium_cpmm_pool :
    (keys : SolanaKeys) → List ℕ → (address : keys.PublicKey) → Result (RaydiumCpmmPool keys)
decode_raydium_cpmm_pool keys bytes address =
    if ltb (length bytes) 413
    then err insufficient_data
    else if same_bytes (slice 0 8 bytes) raydium_cpmm_pool_discriminator
    then decode_pool_fields keys bytes address
    else err invalid_discriminator

unfoldable pub decode_config_fields :
    (keys : SolanaKeys) → List ℕ → (address : keys.PublicKey) → Result (RaydiumCpmmConfig keys)
decode_config_fields keys bytes address = do
  trade ← word 12 20 bytes
  creator ← word 108 116 bytes
  ok (record { address = address; trade_fee_rate = trade; creator_fee_rate = creator })

unfoldable pub decode_raydium_cpmm_config :
    (keys : SolanaKeys) → List ℕ → (address : keys.PublicKey) → Result (RaydiumCpmmConfig keys)
decode_raydium_cpmm_config keys bytes address =
    if ltb (length bytes) 116
    then err insufficient_data
    else if same_bytes (slice 0 8 bytes) raydium_cpmm_config_discriminator
    then decode_config_fields keys bytes address
    else err invalid_discriminator

unfoldable pub saturating_sub : ℕ → ℕ → ℕ
saturating_sub a b = if ltb a b then 0 else a - b

-- The sums of the fees wrap.
unfoldable pub net_reserves :
    {keys : SolanaKeys} → RaydiumCpmmPool keys → (vault_0 vault_1 : ℕ) → ℕ × ℕ
net_reserves p vault_0 vault_1 = (
  saturating_sub vault_0
      (add_wrap (add_wrap p.protocol_fees_token_0 p.fund_fees_token_0) p.creator_fees_token_0),
  saturating_sub vault_1
      (add_wrap (add_wrap p.protocol_fees_token_1 p.fund_fees_token_1) p.creator_fees_token_1),
)

unfoldable pub effective_creator_fee_rate :
    {keys : SolanaKeys} → Option (RaydiumCpmmPool keys) → Option (RaydiumCpmmConfig keys) → ℕ
effective_creator_fee_rate none cfg = 0
effective_creator_fee_rate (some p) none = 0
effective_creator_fee_rate (some p) (some cfg) =
    if p.enable_creator_fee then cfg.creator_fee_rate else 0

unfoldable pub is_swap_disabled : {keys : SolanaKeys} → Option (RaydiumCpmmPool keys) → Bool
is_swap_disabled none = false
is_swap_disabled (some p) = ((p.status / 2 ^ 2) % 2) == 1
