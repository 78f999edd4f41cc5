-- ===== src/Models/BondingCurve.antt =====
-- models/pump_bonding_curve.go: a pump.fun bonding curve, decoded from an account of any of its lengths.
use soldex.Base.{
  ℕ, Bool, false, Option, none, some, List, [], ◌∷◌, ltb, if◌then◌else◌, Result, ok, err, ◌>>=◌,
  insufficient_data, invalid_discriminator,
}
use soldex.Models.Bytes.{length, slice, word, flag}
use soldex.Models.PumpPool.{SolanaKeys, same_bytes, key_at, from_length}

abbrev pub bonding_curve_discriminator : List ℕ
bonding_curve_discriminator = 23 ∷ 183 ∷ 248 ∷ 55 ∷ 96 ∷ 216 ∷ 172 ∷ 96 ∷ []

pub record BondingCurve (keys : SolanaKeys) : Type 0 where
  pub address : keys.PublicKey
  pub virtual_token_reserves : ℕ
  pub virtual_sol_reserves : ℕ
  pub real_token_reserves : ℕ
  pub real_sol_reserves : ℕ
  pub token_total_supply : ℕ
  pub complete : Bool
  pub creator : keys.PublicKey
  pub is_mayhem_mode : Bool
  pub is_cashback_coin : Bool
  pub quote_mint : keys.PublicKey
  pub creator_fee_bps : ℕ
  pub can_edit_creator_fee : Bool
  pub is_holder_reward : Bool

-- The account past its discriminator; a field that a short account lacks is its zero value.
unfoldable pub decode_curve_fields :
    (keys : SolanaKeys) → List ℕ → (address : keys.PublicKey) → Result (BondingCurve keys)
decode_curve_fields keys bytes address = do
  virtual_token ← word 8 16 bytes
  virtual_sol ← word 16 24 bytes
  real_token ← word 24 32 bytes
  real_sol ← word 32 40 bytes
  supply ← word 40 48 bytes
  complete ← flag 48 bytes
  creator ← key_at keys 49 bytes
  mayhem ← from_length 83 bytes false (flag 81 bytes)
  cashback ← from_length 83 bytes false (flag 82 bytes)
  quote_mint ← from_length 115 bytes keys.zero_key (key_at keys 83 bytes)
  creator_fee ← from_length 123 bytes 0 (word 115 123 bytes)
  can_edit ← from_length 124 bytes false (flag 123 bytes)
  holder_reward ← from_length 125 bytes false (flag 124 bytes)
  ok (record {
    address = address;
    virtual_token_reserves = virtual_token;
    virtual_sol_reserves = virtual_sol;
    real_token_reserves = real_token;
    real_sol_reserves = real_sol;
    token_total_supply = supply;
    complete = complete;
    creator = creator;
    is_mayhem_mode = mayhem;
    is_cashback_coin = cashback;
    quote_mint = quote_mint;
    creator_fee_bps = creator_fee;
    can_edit_creator_fee = can_edit;
    is_holder_reward = holder_reward;
  })

unfoldable pub decode_bonding_curve :
    (keys : SolanaKeys) → List ℕ → (address : keys.PublicKey) → Result (BondingCurve keys)
decode_bonding_curve keys bytes address =
    if ltb (length bytes) 81
    then err insufficient_data
    else if same_bytes (slice 0 8 bytes) bonding_curve_discriminator
    then decode_curve_fields keys bytes address
    else err invalid_discriminator

unfoldable pub is_sol_quoted : (keys : SolanaKeys) → Option (BondingCurve keys) → Bool
is_sol_quoted keys none = false
is_sol_quoted keys (some c) = keys.is_zero c.quote_mint
