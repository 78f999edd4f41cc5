-- ===== src/Models/PumpPool.antt =====
-- models/pump_pool.go: a Pump-AMM pool, decoded from an account of any of its lengths. The keys of the
-- Solana library are a parameter.
pub mod Reserve
pub mod NoPanic
use soldex.Base.{
  ℕ, zero, suc, ◌+◌, ◌-◌, ◌*◌, ◌/◌, ◌%◌, ◌^◌, ◌≤◌, ◌<◌, ◌≡◌, ◌≢◌, refl, sym, ap, ◌∙◌, ◌↔◌, ◌⊎◌, inl,
  inr, arith, Bool, true, false, not, ◌&&◌, ◌||◌, Option, none, some, List, [], ◌∷◌, ◌++◌, ltb, leb,
  ◌==◌, if◌then◌else◌, Result, ok, err, ◌>>=◌, ◌>>◌, Error, math_overflow, divide_by_zero,
  negative_value, type_cast_failed, fail_if, zero_output, unsupported_curve, unknown_creator_fee_on,
  invalid_pool, amount_overflow, negative_liquidity, swap_disabled, insufficient_data,
  invalid_discriminator, panicked, insufficient_liquidity, price_range_violation, compounding_pool,
  value_out_of_range, >>=-eq-ok, ok-injective, Bool-cases, Option-cases, ltb→lt, ltb→le, leb→le,
  leb→lt, ==→eq, lt→ltb, le→ltb, le→leb,
}
use soldex.Base.Int.{ℤ, pos, negsuc, ◌+ℤ◌, ◌-ℤ◌, wrap_i64, eqb_ℤ}
use soldex.Base.Words.{max_u64, u64_mod}
use soldex.Models.Bytes.{length, range, slice, word, flag, little_endian}

-- solana.PublicKey, its zero value, `PublicKeyFromBytes`, the mints that models/pump_fee.go names, and
-- `FindProgramAddress` of the seeds "pool-authority" and a base mint under the bonding-curve program,
-- `none` where it fails.
pub record SolanaKeys : Type 1 where
  pub PublicKey : Type 0
  pub zero_key : PublicKey
  pub from_bytes : List ℕ → PublicKey
  pub is_zero : PublicKey → Bool
  pub equals : PublicKey → PublicKey → Bool
  pub wsol_mint : PublicKey
  pub usdc_mint : PublicKey
  pub usdt_mint : PublicKey
  pub pool_authority : PublicKey → Option PublicKey

pub record PumpPool (keys : SolanaKeys) : Type 0 where
  pub address : keys.PublicKey
  pub base_mint : keys.PublicKey
  pub quote_mint : keys.PublicKey
  pub pool_base_token_account : keys.PublicKey
  pub pool_quote_token_account : keys.PublicKey
  pub coin_creator : keys.PublicKey
  pub creator : keys.PublicKey
  pub is_cashback_coin : Bool
  pub virtual_quote_reserves : ℤ
  pub creator_fee_bps : ℕ
  pub can_edit_creator_fee : Bool
  pub is_holder_reward : Bool

-- `uint64(-v)` of a negative int64 is `n + 1`, also for the least one, whose negation wraps.
unfoldable pub net_of_virtual : ℤ → ℕ → ℕ
net_of_virtual (negsuc n) vault = if ltb vault (n + 1) then 0 else vault - (n + 1)
net_of_virtual (pos n) vault =
    if n == 0 then vault else if ltb (max_u64 - n) vault then max_u64 else vault + n

-- Of a pool that may be nil.
unfoldable pub effective_quote_reserve : (keys : SolanaKeys) → Option (PumpPool keys) → ℕ → ℕ
effective_quote_reserve keys none vault = vault
effective_quote_reserve keys (some p) vault = net_of_virtual p.virtual_quote_reserves vault

unfoldable pub int128_as_int64 : List ℕ → Result ℤ
int128_as_int64 b = do
  lo ← word 0 8 b
  hi_word ← word 8 16 b
  let hi = wrap_i64 (pos hi_word)
  if (eqb_ℤ hi (pos 0) && leb lo (max_u64 / 2)) || (eqb_ℤ hi (negsuc 0) && ltb (max_u64 / 2) lo)
      then ok (wrap_i64 (pos lo))
      else err value_out_of_range

abbrev pub pump_pool_discriminator : List ℕ
pump_pool_discriminator = 241 ∷ 154 ∷ 109 ∷ 4 ∷ 17 ∷ 177 ∷ 109 ∷ 188 ∷ []

unfoldable pub same_bytes : List ℕ → List ℕ → Bool
same_bytes [] [] = true
same_bytes [] (y ∷ ys) = false
same_bytes (x ∷ xs) [] = false
same_bytes (x ∷ xs) (y ∷ ys) = x == y && same_bytes xs ys

unfoldable pub key_at : (keys : SolanaKeys) → (from : ℕ) → List ℕ → Result keys.PublicKey
key_at keys from bytes = do b ← range from (from + 32) bytes; ok (keys.from_bytes b)

-- A field that an account too short to carry it has at its zero value.
unfoldable pub from_length {ℓ} :
    {A : Type ℓ} → (end : ℕ) → List ℕ → (absent : A) → Result A → Result A
from_length end bytes absent present = if leb end (length bytes) then present else ok absent

unfoldable pub virtual_at : List ℕ → Result ℤ
virtual_at bytes = do b ← range 245 261 bytes; int128_as_int64 b

-- An account that is long enough and has the discriminator.
unfoldable pub decode_fields :
    (keys : SolanaKeys) → List ℕ → (address : keys.PublicKey) → Result (PumpPool keys)
decode_fields keys bytes address = do
  creator ← key_at keys 11 bytes
  base_mint ← key_at keys 43 bytes
  quote_mint ← key_at keys 75 bytes
  base_account ← key_at keys 139 bytes
  quote_account ← key_at keys 171 bytes
  coin_creator ← from_length 243 bytes keys.zero_key (key_at keys 211 bytes)
  cashback ← from_length 245 bytes false (flag 244 bytes)
  virtual ← from_length 261 bytes (pos 0) (virtual_at bytes)
  creator_fee ← from_length 269 bytes 0 (word 261 269 bytes)
  can_edit ← from_length 270 bytes false (flag 269 bytes)
  holder_reward ← from_length 271 bytes false (flag 270 bytes)
  ok (record {
    address = address;
    base_mint = base_mint;
    quote_mint = quote_mint;
    pool_base_token_account = base_account;
    pool_quote_token_account = quote_account;
    coin_creator = coin_creator;
    creator = creator;
    is_cashback_coin = cashback;
    virtual_quote_reserves = virtual;
    creator_fee_bps = creator_fee;
    can_edit_creator_fee = can_edit;
    is_holder_reward = holder_reward;
  })

unfoldable pub decode_pump_pool :
    (keys : SolanaKeys) → List ℕ → (address : keys.PublicKey) → Result (PumpPool keys)
decode_pump_pool keys bytes address =
    if ltb (length bytes) 211
    then err insufficient_data
    else if same_bytes (slice 0 8 bytes) pump_pool_discriminator
    then decode_fields keys bytes address
    else err invalid_discriminator
