-- ===== src/Models/PumpFee/Decodes.antt =====
-- models/pump_fee.go: an account that is long enough is decoded, and no access passes its end.
use soldex.Base.{
  ℕ, zero, suc, ◌+◌, ◌≤◌, ◌<◌, ◌≡◌, refl, ◌⊎◌, inl, inr, arith, Bool, false, List, [], ◌∷◌, ltb,
  leb, if◌then◌else◌, ok, err, insufficient_data, Bool-cases, ltb→lt, ltb→le, leb→le,
}
use soldex.Models.Bytes.{length, word-ok, flag-ok}
use soldex.Models.PumpFee.{
  PumpFees, no_fees, PumpGlobalConfig, PumpFeeTier, PumpFeeConfig,
  pump_global_config_creator_fee_end, creator_override, decode_pump_global_config,
  pump_stable_tiers_offset, pump_exotic_flat_offset, pump_tier_entry_len, pump_max_tiers,
  decode_pump_fees, decode_tier, decode_tiers, decode_pump_tier_vec, decode_exotic_flat,
  decode_pump_fee_config,
}

creator_override-ok : (bytes : List ℕ) → (r : Bool × ℕ) × (creator_override bytes ≡ ok r)
unfolding creator_override
creator_override-ok bytes =
    elim (Bool-cases (leb pump_global_config_creator_fee_end (length bytes))) [
      | inl long ↦
          let le = leb→le _ _ long in
          let (on, e₁) = flag-ok 940 bytes (omega arith) in
          let (max, e₂) = word-ok 941 949 bytes (omega arith) in ((on, max), rw (long, e₁, e₂) refl)
      | inr short ↦ ((false, 0), rw short refl)
    ]

decode_pump_global_config-ok :
    (bytes : List ℕ)
    → 321 ≤ length bytes
    → (g : PumpGlobalConfig) × (decode_pump_global_config bytes ≡ ok g)
unfolding decode_pump_global_config
decode_pump_global_config-ok bytes h =
    let long : ltb (length bytes) 321 ≡ false = ground arith in
    let (lp, e₁) = word-ok 40 48 bytes (omega arith) in
    let (protocol, e₂) = word-ok 48 56 bytes (omega arith) in
    let (coin_creator, e₃) = word-ok 313 321 bytes (omega arith) in
    let (override, e₄) = creator_override-ok bytes in
    (
      record {
        lp_bps = lp;
        protocol_bps = protocol;
        coin_creator_bps = coin_creator;
        creator_fee_configurable = override.0;
        max_configurable_creator_fee_bps = override.1;
      },
      rw (long, e₁, e₂, e₃, e₄) refl,
    )

decode_pump_fees-ok :
    (bytes : List ℕ) (o : ℕ)
    → o + 24 ≤ length bytes
    → (f : PumpFees) × (decode_pump_fees bytes o ≡ ok f)
unfolding decode_pump_fees
decode_pump_fees-ok bytes o h =
    let (lp, e₁) = word-ok o (o + 8) bytes (omega arith) in
    let (protocol, e₂) = word-ok (o + 8) (o + 16) bytes (omega arith) in
    let (creator, e₃) = word-ok (o + 16) (o + 24) bytes h in
    (record { lp_bps = lp; protocol_bps = protocol; creator_bps = creator }, rw (e₁, e₂, e₃) refl)

decode_tier-ok :
    (bytes : List ℕ) (o : ℕ)
    → o + 40 ≤ length bytes
    → (t : PumpFeeTier) × (decode_tier bytes o ≡ ok t)
unfolding decode_tier
decode_tier-ok bytes o h =
    let (threshold, e₁) = word-ok o (o + 16) bytes (omega arith) in
    let (fees, e₂) = decode_pump_fees-ok bytes (o + 16) (omega arith) in
    (record { market_cap_threshold = threshold; fees = fees }, rw (e₁, e₂) refl)

decode_tiers-ok :
    (count : ℕ) (bytes : List ℕ) (o : ℕ)
    → (ts : List PumpFeeTier) × (decode_tiers count bytes o ≡ ok ts) × (length ts ≤ count)
unfolding decode_tiers length
decode_tiers-ok zero bytes o = ([], refl, omega arith)
decode_tiers-ok (suc count) bytes o =
    elim (Bool-cases (ltb (length bytes) (o + pump_tier_entry_len))) [
      | inl short ↦ ([], rw short refl, omega arith)
      | inr long ↦
          let (tier, e₁) = decode_tier-ok bytes o (ltb→le _ _ long) in
          let (tiers, e₂, le) = decode_tiers-ok count bytes (o + pump_tier_entry_len) in
          (tier ∷ tiers, rw (long, e₁, e₂) refl, omega arith)
    ]

decode_pump_tier_vec-ok :
    (bytes : List ℕ) (off : ℕ)
    → (ts : List PumpFeeTier) × (decode_pump_tier_vec bytes off ≡ ok ts) × (length ts ≤ 64)
unfolding decode_pump_tier_vec length
decode_pump_tier_vec-ok bytes off = elim (Bool-cases (ltb (length bytes) (off + 4))) [
  | inl short ↦ ([], rw short refl, omega arith)
  | inr long ↦
      let (n, e₁) = word-ok off (off + 4) bytes (ltb→le _ _ long) in
      let count = if ltb pump_max_tiers n then pump_max_tiers else n in
      let bounded : count ≤ 64 = ground arith in
      let (ts, e₂, le) = decode_tiers-ok count bytes (off + 4) in
      (ts, rw (long, e₁, e₂) refl, omega arith)
]

decode_exotic_flat-ok : (bytes : List ℕ) → (f : PumpFees) × (decode_exotic_flat bytes ≡ ok f)
unfolding decode_exotic_flat
decode_exotic_flat-ok bytes =
    elim (Bool-cases (leb (pump_exotic_flat_offset + 24) (length bytes))) [
      | inl long ↦
          let (f, e) = decode_pump_fees-ok bytes pump_exotic_flat_offset (leb→le _ _ long) in
          (f, rw long e)
      | inr short ↦ (no_fees, rw short refl)
    ]

decode_pump_fee_config-ok :
    (bytes : List ℕ)
    → 69 ≤ length bytes
    → (c : PumpFeeConfig) × (decode_pump_fee_config bytes ≡ ok c)
      × (length c.tiers ≤ 64)
      × (length c.stable_tiers ≤ 64)
unfolding decode_pump_fee_config
decode_pump_fee_config-ok bytes h =
    let long : ltb (length bytes) 69 ≡ false = ground arith in
    let (flat, e₁) = decode_pump_fees-ok bytes 41 (omega arith) in
    let (tiers, e₂, le₂) = decode_pump_tier_vec-ok bytes 65 in
    let (stable, e₃, le₃) = decode_pump_tier_vec-ok bytes pump_stable_tiers_offset in
    let (exotic, e₄) = decode_exotic_flat-ok bytes in
    (
      record { flat = flat; tiers = tiers; stable_tiers = stable; exotic_flat = exotic },
      rw (long, e₁, e₂, e₃, e₄) refl,
      le₂,
      le₃,
    )

-- Whatever the bytes and the length prefixes that they hold, the two decoders never panic: each fails
-- with the short-account error below its minimal length, and at that length or above it succeeds,
-- with at most 64 tiers in either schedule.
pub decode_pump_accounts :
    (bytes : List ℕ)
    → (((length bytes < 321) × (decode_pump_global_config bytes ≡ err insufficient_data))
        ⊎ ((321 ≤ length bytes)
            × (g : PumpGlobalConfig) × (decode_pump_global_config bytes ≡ ok g)))
      × (((length bytes < 69) × (decode_pump_fee_config bytes ≡ err insufficient_data))
          ⊎ ((69 ≤ length bytes)
              × (c : PumpFeeConfig) × (decode_pump_fee_config bytes ≡ ok c)
              × (length c.tiers ≤ 64)
              × (length c.stable_tiers ≤ 64)))
unfolding decode_pump_global_config decode_pump_fee_config
decode_pump_accounts bytes = (
  elim (Bool-cases (ltb (length bytes) 321)) [
    | inl short ↦ inl (ltb→lt _ _ short, rw short refl)
    | inr long ↦
        let (g, e) = decode_pump_global_config-ok bytes (ltb→le _ _ long) in
        inr (ltb→le _ _ long, g, e)
  ],
  elim (Bool-cases (ltb (length bytes) 69)) [
    | inl short ↦ inl (ltb→lt _ _ short, rw short refl)
    | inr long ↦
        let (c, e, tiers, stable) = decode_pump_fee_config-ok bytes (ltb→le _ _ long) in
        inr (ltb→le _ _ long, c, e, tiers, stable)
  ],
)
