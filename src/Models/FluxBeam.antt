-- ===== src/Models/FluxBeam.antt =====
-- models/fluxbeam.go: a FluxBeam pool, decoded from its account.
use soldex.Base.{
  ℕ, not, List, ltb, ◌==◌, if◌then◌else◌, Result, ok, err, ◌>>=◌, insufficient_data,
  invalid_discriminator,
}
use soldex.Models.Bytes.{length, range, word}
use soldex.Models.PumpPool.{SolanaKeys, key_at}
use soldex.Quote.Constant.FluxBeam.{FluxBeamFees}

abbrev pub flux_beam_account_len : ℕ
flux_beam_account_len = 324

pub record FluxBeamPool (keys : SolanaKeys) : Type 0 where
  pub address : keys.PublicKey
  pub bump_seed : ℕ
  pub token_program : keys.PublicKey
  pub vault_a : keys.PublicKey
  pub vault_b : keys.PublicKey
  pub pool_mint : keys.PublicKey
  pub mint_a : keys.PublicKey
  pub mint_b : keys.PublicKey
  pub pool_fee_account : keys.PublicKey
  pub fees : FluxBeamFees
  pub curve_type : ℕ
  pub calculator : List ℕ

unfoldable pub decode_fees : List ℕ → Result FluxBeamFees
decode_fees bytes = do
  trade ← word 227 235 bytes
  trade_den ← word 235 243 bytes
  owner_trade ← word 243 251 bytes
  owner_trade_den ← word 251 259 bytes
  owner_withdraw ← word 259 267 bytes
  owner_withdraw_den ← word 267 275 bytes
  host ← word 275 283 bytes
  host_den ← word 283 291 bytes
  ok (record {
    trade_fee_numerator = trade;
    trade_fee_denominator = trade_den;
    owner_trade_fee_numerator = owner_trade;
    owner_trade_fee_denominator = owner_trade_den;
    owner_withdraw_fee_numerator = owner_withdraw;
    owner_withdraw_fee_denominator = owner_withdraw_den;
    host_fee_numerator = host;
    host_fee_denominator = host_den;
  })

-- An account of the version and initialized.
unfoldable pub decode_pool :
    (keys : SolanaKeys) → List ℕ → (address : keys.PublicKey) → Result (FluxBeamPool keys)
decode_pool keys bytes address = do
  bump ← word 2 3 bytes
  program ← key_at keys 3 bytes
  vault_a ← key_at keys 35 bytes
  vault_b ← key_at keys 67 bytes
  pool_mint ← key_at keys 99 bytes
  mint_a ← key_at keys 131 bytes
  mint_b ← key_at keys 163 bytes
  fee_account ← key_at keys 195 bytes
  fees ← decode_fees bytes
  curve_type ← word 291 292 bytes
  calculator ← range 292 324 bytes
  ok (record {
    address = address;
    bump_seed = bump;
    token_program = program;
    vault_a = vault_a;
    vault_b = vault_b;
    pool_mint = pool_mint;
    mint_a = mint_a;
    mint_b = mint_b;
    pool_fee_account = fee_account;
    fees = fees;
    curve_type = curve_type;
    calculator = calculator;
  })

unfoldable pub decode_flux_beam_pool :
    (keys : SolanaKeys) → List ℕ → (address : keys.PublicKey) → Result (FluxBeamPool keys)
decode_flux_beam_pool keys bytes address =
    if ltb (length bytes) flux_beam_account_len then err insufficient_data else (do
      version ← word 0 1 bytes
      initialized ← word 1 2 bytes
      if not (version == 1)
          then err invalid_discriminator
          else if not (initialized == 1)
          then err invalid_discriminator
          else decode_pool keys bytes address)
