-- ===== src/Quoter/Keeps.antt =====
-- soldex.go, from_models.go: what a quoter of a Raydium pool gives, once the code has constructed it.
use soldex.Base.{
  ℕ, ◌+◌, ◌-◌, ◌%◌, ◌<◌, ◌≡◌, refl, sym, inl, inr, arith, Bool, true, false, not, ◌||◌, some, ltb,
  leb, ◌==◌, Result, ok, err, >>=-eq-ok, ok-injective, Bool-cases,
}
use soldex.Base.Words.{u64_mod, add_wrap}
use soldex.Models.PumpPool.{SolanaKeys}
use soldex.Models.RaydiumCpmm
use soldex.Models.RaydiumCpmm.{
  RaydiumCpmmPool, RaydiumCpmmConfig, effective_creator_fee_rate, is_swap_disabled, saturating_sub,
}
use soldex.Models.RaydiumAmmV4
use soldex.Models.RaydiumAmmV4.{RaydiumAmmV4Pool, can_swap_no_orderbook}
use soldex.Quote.Constant.Product.{KeepsProduct}
use soldex.Quote.Constant.RayCpmm.{creator_fee_on_input}
use soldex.Quote.Constant.RayCpmm.Keeps.{swap_base_input-KeepsProduct}
use soldex.Quote.Constant.RayAmmV4.Keeps.{swap_base_in-KeepsProduct}
use soldex.Quoter.{Quoter, raydium_cpmm, raydium_amm_v4}
use soldex.Quoter.FromModels.{wrapped, over_reserves, from_raydium_cpmm, from_raydium_amm_v4}

-- A quoter over two reserves quotes an amount in a direction, and the output keeps their product.
abbrev pub Quotes : (reserve_0 reserve_1 amount_in : ℕ) → Bool → Quoter → Type 0
Quotes r_0 r_1 amount_in true quoter =
    (out : ℕ) × (quoter amount_in true ≡ ok out) × KeepsProduct r_0 r_1 amount_in out
Quotes r_0 r_1 amount_in false quoter =
    (out : ℕ) × (quoter amount_in false ≡ ok out) × KeepsProduct r_1 r_0 amount_in out

raydium_amm_v4-Quotes :
    (coin pc num den amount_in : ℕ) (a_to_b : Bool)
    → Quotes coin pc amount_in a_to_b (raydium_amm_v4 coin pc num den)
unfolding raydium_amm_v4
raydium_amm_v4-Quotes coin pc num den amount_in true =
    (_, refl, swap_base_in-KeepsProduct coin pc amount_in num den)
raydium_amm_v4-Quotes coin pc num den amount_in false =
    (_, refl, swap_base_in-KeepsProduct pc coin amount_in num den)

raydium_cpmm-Quotes :
    (r_0 r_1 trade creator fee_on amount_in : ℕ) (a_to_b on_input : Bool)
    → creator_fee_on_input fee_on a_to_b ≡ ok on_input
    → Quotes r_0 r_1 amount_in a_to_b (raydium_cpmm r_0 r_1 trade creator fee_on)
unfolding raydium_cpmm
raydium_cpmm-Quotes r_0 r_1 trade creator fee_on amount_in true on_input h =
    (_, rw h refl, swap_base_input-KeepsProduct r_0 r_1 amount_in trade creator on_input)
raydium_cpmm-Quotes r_0 r_1 trade creator fee_on amount_in false on_input h =
    (_, rw h refl, swap_base_input-KeepsProduct r_1 r_0 amount_in trade creator on_input)

-- A setting that is known for one direction is known for both.
creator_fee_on_input-known :
    (fee_on : ℕ) (on_input a_to_b : Bool)
    → creator_fee_on_input fee_on true ≡ ok on_input
    → (b : Bool) × (creator_fee_on_input fee_on a_to_b ≡ ok b)
unfolding creator_fee_on_input
creator_fee_on_input-known fee_on on_input a_to_b h = elim (Bool-cases (fee_on == 0)) [
  | inl zeroth ↦ (true, rw zeroth refl)
  | inr not_0 ↦ elim (Bool-cases (fee_on == 1)) [
    | inl first ↦ (a_to_b, rw (not_0, first) refl)
    | inr not_1 ↦ elim (Bool-cases (fee_on == 2)) [
      | inl second ↦ (not a_to_b, rw (not_0, not_1, second) refl)
      | inr not_2 ↦ absurd (ground arith)
    ]
  ]
]

wrapped-ok {ℓ} : {T : Type ℓ} (r : Result T) (x : T) → wrapped r ≡ ok x → r ≡ ok x
unfolding wrapped
wrapped-ok (ok y) x h = h
wrapped-ok (err e) x h = cc

over_reserves-ok :
    (a b : ℕ) (make : ℕ → ℕ → Quoter) (quoter : Quoter)
    → over_reserves (a, b) make ≡ ok quoter
    → (0 < a) × (0 < b) × (make a b ≡ quoter)
unfolding over_reserves
over_reserves-ok a b make quoter h = elim (Bool-cases ((a == 0) || (b == 0))) [
  | inl empty ↦ cc
  | inr full ↦ (ground arith, ground arith, ok-injective (rw full at h))
]

raydium_amm_v4-reserves :
    {keys : SolanaKeys} (p : RaydiumAmmV4Pool keys) (coin_vault pc_vault : ℕ) (reserves : ℕ × ℕ)
    → RaydiumAmmV4.net_reserves p coin_vault pc_vault ≡ ok reserves
    → reserves ≡ (coin_vault - p.need_take_pnl_coin, pc_vault - p.need_take_pnl_pc)
unfolding RaydiumAmmV4.net_reserves
raydium_amm_v4-reserves p coin_vault pc_vault reserves h =
    let owes = ltb coin_vault p.need_take_pnl_coin || ltb pc_vault p.need_take_pnl_pc in
    elim (Bool-cases owes) [
      | inl more ↦ absurd (let e = rw more at h in cc)
      | inr less ↦ sym (ok-injective (rw less at h))
    ]

-- Once a quoter of an AMM v4 pool is constructed: each vault holds more than the pool owes of it, and
-- an amount in either direction is quoted, with an output that keeps the product of what is left.
pub from_raydium_amm_v4-Quotes :
    {keys : SolanaKeys} (p : RaydiumAmmV4Pool keys) (coin_vault pc_vault now : ℕ) (quoter : Quoter)
    (amount_in : ℕ) (a_to_b : Bool)
    → from_raydium_amm_v4 (some p) coin_vault pc_vault now ≡ ok quoter
    → (p.need_take_pnl_coin < coin_vault)
      × (p.need_take_pnl_pc < pc_vault)
      × Quotes
          (coin_vault - p.need_take_pnl_coin)
          (pc_vault - p.need_take_pnl_pc)
          amount_in
          a_to_b
          quoter
unfolding from_raydium_amm_v4
from_raydium_amm_v4-Quotes p coin_vault pc_vault now quoter amount_in a_to_b h =
    let num = p.swap_fee_numerator in
    let den = p.swap_fee_denominator in
    elim (Bool-cases (can_swap_no_orderbook p now)) [
      | inr closed ↦ absurd (let e = rw closed at h in cc)
      | inl opened ↦ elim (Bool-cases ((den == 0) || leb den num)) [
        | inl unfit ↦ absurd (let e = rw (opened, unfit) at h in cc)
        | inr fit ↦
            let (r, net, over) = >>=-eq-ok _ _ (rw (opened, fit) at h) in
            let split = raydium_amm_v4-reserves p coin_vault pc_vault r (wrapped-ok _ _ net) in
            let (coin, pc, same) = over_reserves-ok _ _ _ quoter (rw split at over) in
            (
              omega arith,
              omega arith,
              rw (sym same) (raydium_amm_v4-Quotes _ _ num den amount_in a_to_b),
            )
      ]
    ]

-- The fees that a CP-Swap pool tracks of each token; the sum is a uint64 that wraps.
abbrev pub tracked_0 : {keys : SolanaKeys} → RaydiumCpmmPool keys → ℕ
tracked_0 p = (p.protocol_fees_token_0 + p.fund_fees_token_0 + p.creator_fees_token_0) % u64_mod

abbrev pub tracked_1 : {keys : SolanaKeys} → RaydiumCpmmPool keys → ℕ
tracked_1 p = (p.protocol_fees_token_1 + p.fund_fees_token_1 + p.creator_fees_token_1) % u64_mod

saturating_sub-eq : (a b : ℕ) → saturating_sub a b ≡ a - b
unfolding saturating_sub
saturating_sub-eq a b = ground arith

raydium_cpmm-reserves :
    {keys : SolanaKeys} (p : RaydiumCpmmPool keys) (vault_0 vault_1 : ℕ)
    → RaydiumCpmm.net_reserves p vault_0 vault_1 ≡ (vault_0 - tracked_0 p, vault_1 - tracked_1 p)
unfolding RaydiumCpmm.net_reserves add_wrap
raydium_cpmm-reserves p vault_0 vault_1 =
    rw (saturating_sub-eq vault_0 _, saturating_sub-eq vault_1 _) (grind arith)

-- Once a quoter of a CP-Swap pool is constructed: each vault holds more than the protocol, fund and
-- creator fees that the pool tracks of it, whose sum wraps at a uint64, and an amount in either
-- direction is quoted, with an output that keeps the product of what these fees leave.
pub from_raydium_cpmm-Quotes :
    {keys : SolanaKeys} (p : RaydiumCpmmPool keys) (cfg : RaydiumCpmmConfig keys)
    (vault_0 vault_1 : ℕ) (quoter : Quoter) (amount_in : ℕ) (a_to_b : Bool)
    → from_raydium_cpmm (some p) (some cfg) vault_0 vault_1 ≡ ok quoter
    → (tracked_0 p < vault_0)
      × (tracked_1 p < vault_1)
      × Quotes (vault_0 - tracked_0 p) (vault_1 - tracked_1 p) amount_in a_to_b quoter
unfolding from_raydium_cpmm
from_raydium_cpmm-Quotes p cfg vault_0 vault_1 quoter amount_in a_to_b h =
    elim (Bool-cases (is_swap_disabled (some p))) [
      | inl disabled ↦ absurd (let e = rw disabled at h in cc)
      | inr enabled ↦
          let (on_input, setting, over) = >>=-eq-ok _ _ (rw enabled at h) in
          let (b, known) = creator_fee_on_input-known _ on_input a_to_b (wrapped-ok _ _ setting) in
          let (r_0, r_1, same) =
            over_reserves-ok _ _ _ quoter (rw (raydium_cpmm-reserves p vault_0 vault_1) at over) in
          (
            omega arith,
            omega arith,
            rw (sym same) (raydium_cpmm-Quotes _ _ _ _ _ amount_in a_to_b b known),
          )
    ]
