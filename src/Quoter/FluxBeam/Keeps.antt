-- ===== src/Quoter/FluxBeam/Keeps.antt =====
-- soldex.go, from_models.go: what a FluxBeam quote with its transfer fees keeps.
use soldex.Base.{
  ℕ, ◌*◌, ◌≤◌, ◌<◌, ◌≡◌, sym, inl, inr, arith, Bool, true, false, ◌||◌, Option, none, some, leb,
  ◌==◌, ok, >>=-eq-ok, ok-injective, Bool-cases,
}
use soldex.Base.Words.{u64_mod, sub_wrap_exact}
use soldex.Base.Division.{ceil_div-le, ceil_div-add_pred}
use native.Mathlib.Nat.{mul-le-mul_left}
use soldex.Models.PumpPool.{SolanaKeys}
use soldex.Models.TransferFee.{
  TransferFee, TransferFeeConfig, max_fee_basis_points, uncapped_fee, fee_of, post_fee_amount,
  epoch_fee,
}
use soldex.Models.FluxBeam.{FluxBeamPool}
use soldex.Quote.Constant.Product.{KeepsProduct, KeepsProduct-less}
use soldex.Quote.Constant.FluxBeam.{FluxBeamFees, curve_constant_product}
use soldex.Quote.Constant.FluxBeam.Keeps.{quote_exact_in-KeepsProduct}
use soldex.Quoter.{Quoter}
use soldex.Quoter.FluxBeam.{FluxBeamSide, arriving, quote_sides, flux_beam, from_flux_beam_pool}

-- Neither setting charges more than the whole amount, which the token program ensures.
abbrev pub AtMostWhole : Option TransferFeeConfig → Type 0
AtMostWhole none = 0 ≤ 0
AtMostWhole (some c) =
    (c.older.basis_points ≤ max_fee_basis_points) × (c.newer.basis_points ≤ max_fee_basis_points)

-- Of the reserves in the direction of a swap.
abbrev pub KeepsSides : (reserve_a reserve_b amount_in amount_out : ℕ) → Bool → Type 0
KeepsSides r_a r_b amount_in amount_out true = KeepsProduct r_a r_b amount_in amount_out
KeepsSides r_a r_b amount_in amount_out false = KeepsProduct r_b r_a amount_in amount_out

uncapped_fee-le :
    (f : TransferFee) (amount : ℕ)
    → f.basis_points ≤ max_fee_basis_points
    → uncapped_fee f amount ≤ amount
unfolding uncapped_fee
uncapped_fee-le f amount h =
    rw (ceil_div-add_pred (amount * f.basis_points) max_fee_basis_points (omega arith)) (
      ceil_div-le (amount * f.basis_points) max_fee_basis_points amount (omega arith)
        (mul-le-mul_left amount h))

fee_of-le :
    (f : TransferFee) (amount : ℕ)
    → f.basis_points ≤ max_fee_basis_points
    → amount < u64_mod
    → fee_of f amount ≤ amount
unfolding fee_of
fee_of-le f amount h fits = let le = uncapped_fee-le f amount h in ground arith

post_fee_amount-le :
    (f : TransferFee) (amount : ℕ)
    → f.basis_points ≤ max_fee_basis_points
    → amount < u64_mod
    → post_fee_amount f amount ≤ amount
unfolding post_fee_amount
post_fee_amount-le f amount h fits =
    rw (sub_wrap_exact amount (fee_of f amount) (fee_of-le f amount h fits) fits) (omega arith)

epoch_fee-AtMostWhole :
    (c : TransferFeeConfig) (epoch : ℕ)
    → AtMostWhole (some c)
    → (epoch_fee c epoch).basis_points ≤ max_fee_basis_points
unfolding epoch_fee
epoch_fee-AtMostWhole c epoch (older, newer) = elim (Bool-cases (leb c.newer.epoch epoch)) [
  | inl staged ↦ rw staged newer
  | inr before ↦ rw before older
]

arriving-le :
    (fee : Option TransferFeeConfig) (epoch amount : ℕ)
    → AtMostWhole fee
    → amount < u64_mod
    → arriving fee epoch amount ≤ amount
unfolding arriving
arriving-le none epoch amount h fits = omega arith
arriving-le (some c) epoch amount h fits =
    post_fee_amount-le (epoch_fee c epoch) amount (epoch_fee-AtMostWhole c epoch h) fits

quote_sides-KeepsProduct :
    (src dst : FluxBeamSide) (curve_type : ℕ) (fees : FluxBeamFees) (epoch amount_in out : ℕ)
    → AtMostWhole src.transfer_fee
    → AtMostWhole dst.transfer_fee
    → dst.reserve < u64_mod
    → amount_in < u64_mod
    → quote_sides src dst curve_type fees epoch amount_in ≡ ok out
    → (curve_type ≡ curve_constant_product) × KeepsProduct src.reserve dst.reserve amount_in out
unfolding quote_sides
quote_sides-KeepsProduct src dst curve_type fees epoch amount_in out h k fits small done =
    let (gross, quoted, same) = >>=-eq-ok _ _ done in
    let net = arriving src.transfer_fee epoch amount_in in
    let (curve, _, keeps) =
      quote_exact_in-KeepsProduct curve_type src.reserve dst.reserve net fees gross fits quoted in
    let sent = arriving-le src.transfer_fee epoch amount_in h small in
    let got = arriving-le dst.transfer_fee epoch gross k (omega (arith, keeps.0)) in
    (
      curve,
      rw (sym (ok-injective same))
          (KeepsProduct-less src.reserve dst.reserve net amount_in gross _ sent got keeps),
    )

constructed :
    (keys : SolanaKeys) (p : FluxBeamPool keys) (a b : FluxBeamSide) (epoch : ℕ) (quoter : Quoter)
    → from_flux_beam_pool keys (some p) a b epoch ≡ ok quoter
    → (0 < a.reserve) × (0 < b.reserve) × (quoter ≡ flux_beam a b p.curve_type p.fees epoch)
unfolding from_flux_beam_pool
constructed keys p a b epoch quoter made =
    elim (Bool-cases ((a.reserve == 0) || (b.reserve == 0))) [
      | inl empty ↦ absurd (let e = rw empty at made in cc)
      | inr full ↦ (ground arith, ground arith, sym (ok-injective (rw full at made)))
    ]

-- For two mints whose transfer fees are at most the whole, uint64 reserves and a uint64 amount: what a
-- constructed FluxBeam quoter quotes is of a constant-product pool with two reserves that are not zero,
-- and what arrives of the output keeps the product of the reserves, with the whole amount sent.
pub from_flux_beam_pool-KeepsSides :
    (keys : SolanaKeys) (p : FluxBeamPool keys) (a b : FluxBeamSide) (epoch : ℕ) (quoter : Quoter)
    (amount_in out : ℕ) (a_to_b : Bool)
    → AtMostWhole a.transfer_fee
    → AtMostWhole b.transfer_fee
    → a.reserve < u64_mod
    → b.reserve < u64_mod
    → amount_in < u64_mod
    → from_flux_beam_pool keys (some p) a b epoch ≡ ok quoter
    → quoter amount_in a_to_b ≡ ok out
    → (0 < a.reserve)
      × (0 < b.reserve)
      × (p.curve_type ≡ curve_constant_product)
      × KeepsSides a.reserve b.reserve amount_in out a_to_b
unfolding flux_beam
from_flux_beam_pool-KeepsSides keys p a b epoch quoter amount_in out true h k f g small made done =
    let (held_a, held_b, same) = constructed keys p a b epoch quoter made in
    let (curve, keeps) =
      quote_sides-KeepsProduct a b p.curve_type p.fees epoch amount_in out h k g small
        (rw same at done) in
    (held_a, held_b, curve, keeps)
from_flux_beam_pool-KeepsSides keys p a b epoch quoter amount_in out false h k f g small made done =
    let (held_a, held_b, same) = constructed keys p a b epoch quoter made in
    let (curve, keeps) =
      quote_sides-KeepsProduct b a p.curve_type p.fees epoch amount_in out k h f small
        (rw same at done) in
    (held_a, held_b, curve, keeps)
