-- ===== src/Quote/Dlmm/Bin/Conserves.antt =====
-- quote/dlmm/bin_quote.go: what one bin's swap conserves.
use mathlib.Core.Path.{subst}
use soldex.Base.{
  ℕ, ◌+◌, ◌*◌, ◌/◌, ◌≤◌, ◌<◌, ◌≡◌, sym, ◌∙◌, inl, inr, arith, Bool, true, false, Option, ltb, ok,
  >>=-eq-ok, ok-injective, Bool-cases, ltb→lt, ltb→le, lt→ltb, le→ltb,
}
use soldex.Base.Words.{u64_mod}
use soldex.Math.Common.{nat}
use soldex.Quote.Dlmm.Fees.{
  compute_fee, add_u64, sub_u64, compute_protocol_fee, compute_fee_from_amount, min_u64,
  basis_point_max,
}
use soldex.Quote.Dlmm.Fees.RoundTrip.{
  compute_fee-ok, add_u64-ok, sub_u64-ok, compute_protocol_fee-ok,
}
use soldex.Quote.Dlmm.Bin.{
  BinFill, BinSwapQuote, get_max_amount_out, get_max_amount_in, fill_bin, settle_bin,
  compute_host_fee, move_reserves, quote_swap_on_bin, get_amount_out_from_amount_in,
}
use soldex.Quote.Dlmm.Bin.Price.{Pays, get_max_amount_in-ok, get_amount_out-ok, Pays-le}

-- What the branch on the amount leaves: the input within the amount and paying for the output, the
-- output within the bin, and the protocol's share of the fee.
record Fills (amount_in max_out price share : ℕ) (swap_for_y : Bool) (f : BinFill) : Type 0 where
  within : f.amount_in_with_fees ≤ amount_in
  net : ℕ
  net_fee : net + f.fee ≡ f.amount_in_with_fees
  out_within : f.amount_out ≤ max_out
  pays : Pays swap_for_y price net f.amount_out
  shares : f.protocol_fee ≡ f.fee * share / basis_point_max
  share_fits : f.protocol_fee < u64_mod

min_u64-le : (a b : ℕ) → (min_u64 a b ≤ a) × (min_u64 a b ≤ b)
unfolding min_u64
min_u64-le a b = ground arith

module _ (amount_in max_out max_fee with_fee price : ℕ) (swap_for_y : Bool) (rate share : ℕ)
    (f : BinFill) where
  abbrev Filled : Type 0
  Filled = fill_bin amount_in max_out max_fee with_fee (nat price) swap_for_y rate share ≡ ok f

  abbrev Good : BinFill → Type 0
  Good = Fills amount_in max_out price share swap_for_y

  -- The bin is emptied.
  empties :
      (no_fee : ℕ)
      → with_fee ≡ no_fee + max_fee
      → Pays swap_for_y price no_fee max_out
      → with_fee < amount_in
      → Filled
      → Good f
  unfolding fill_bin
  empties no_fee sum p over h =
      let (protocol, e, g) =
        >>=-eq-ok (compute_protocol_fee max_fee share) _ (rw (lt→ltb _ _ over) at h) in
      subst Good (ok-injective g) (record {
        within = omega arith;
        net = no_fee;
        net_fee = sym sum;
        out_within = omega arith;
        pays = p;
        shares = (compute_protocol_fee-ok max_fee share e).0;
        share_fits = (compute_protocol_fee-ok max_fee share e).1;
      })

  -- The input is used up.
  uses_up : amount_in < u64_mod → amount_in ≤ with_fee → Filled → Good f
  unfolding fill_bin
  uses_up fits under h =
      let (fee, e₁, h₁) =
        >>=-eq-ok (compute_fee_from_amount amount_in rate) _ (rw (le→ltb _ _ under) at h) in
      let (net, e₂, h₂) = >>=-eq-ok (sub_u64 amount_in fee) _ h₁ in
      let (out, e₃, h₃) =
        >>=-eq-ok (get_amount_out_from_amount_in net (nat price) swap_for_y) _ h₂ in
      let (protocol, e₄, h₄) = >>=-eq-ok (compute_protocol_fee fee share) _ h₃ in
      let (pays, _) = get_amount_out-ok net price swap_for_y e₃ in
      subst Good (ok-injective h₄) (record {
        within = omega arith;
        net = net;
        net_fee = (sub_u64-ok amount_in fee e₂ fits).1;
        out_within = (min_u64-le out max_out).1;
        pays =
            Pays-le swap_for_y price net out (min_u64 out max_out) pays (min_u64-le out max_out).0;
        shares = (compute_protocol_fee-ok fee share e₄).0;
        share_fits = (compute_protocol_fee-ok fee share e₄).1;
      })

  fills :
      (no_fee : ℕ)
      → with_fee ≡ no_fee + max_fee
      → Pays swap_for_y price no_fee max_out
      → amount_in < u64_mod
      → Filled
      → Good f
  fills no_fee sum p fits h = elim (Bool-cases (ltb with_fee amount_in)) [
    | inl over ↦ empties no_fee sum p (ltb→lt _ _ over) h
    | inr under ↦ uses_up fits (ltb→le _ _ under) h
  ]

-- The reserve of the input token gains what goes into the bin, the other loses the output.
abbrev pub Moves : Bool → (reserve_x reserve_y into out new_x new_y : ℕ) → Type 0
Moves true reserve_x reserve_y into out new_x new_y =
    (new_x ≡ reserve_x + into) × (new_y + out ≡ reserve_y) × (new_x < u64_mod)
Moves false reserve_x reserve_y into out new_x new_y =
    (new_y ≡ reserve_y + into) × (new_x + out ≡ reserve_x) × (new_y < u64_mod)

move_reserves-Moves :
    (rx ry into out : ℕ) (swap_for_y : Bool) {r : ℕ × ℕ}
    → rx < u64_mod
    → ry < u64_mod
    → into < u64_mod
    → move_reserves rx ry into out swap_for_y ≡ ok r
    → Moves swap_for_y rx ry into out r.0 r.1
unfolding move_reserves
move_reserves-Moves rx ry into out true {r} hx hy hi h =
    let (x, e, h₁) = >>=-eq-ok (add_u64 rx into) _ h in
    let (y, f, h₂) = >>=-eq-ok (sub_u64 ry out) _ h₁ in
    subst (λ (s : ℕ × ℕ). Moves true rx ry into out s.0 s.1) (ok-injective h₂)
      (omega (arith, add_u64-ok rx into e hx hi, sub_u64-ok ry out f hy))
move_reserves-Moves rx ry into out false {r} hx hy hi h =
    let (y, e, h₁) = >>=-eq-ok (add_u64 ry into) _ h in
    let (x, f, h₂) = >>=-eq-ok (sub_u64 rx out) _ h₁ in
    subst (λ (s : ℕ × ℕ). Moves false rx ry into out s.0 s.1) (ok-injective h₂)
      (omega (arith, add_u64-ok ry into e hy hi, sub_u64-ok rx out f hx))

-- What a bin's quote conserves.
pub record Conserves (amount_in reserve_x reserve_y price share : ℕ) (swap_for_y : Bool)
    (q : BinSwapQuote) : Type 0 where
  pub within : q.amount_in_with_fees ≤ amount_in
  pub balanced : q.amount_into_bin + q.fee ≡ q.amount_in_with_fees
  pub fee_split : q.protocol_fee_after_host + q.host_fee ≡ q.fee * share / basis_point_max
  pub out_within : q.amount_out ≤ get_max_amount_out reserve_x reserve_y swap_for_y
  pub moved :
      Moves swap_for_y reserve_x reserve_y q.amount_into_bin q.amount_out q.new_reserve_x
        q.new_reserve_y
  pub pays : Pays swap_for_y price q.amount_into_bin q.amount_out

settle_bin-Conserves :
    (amount_in rx ry price share : ℕ) (swap_for_y : Bool) (host : Option ℕ) (f : BinFill)
    {q : BinSwapQuote}
    → amount_in < u64_mod
    → rx < u64_mod
    → ry < u64_mod
    → Fills amount_in (get_max_amount_out rx ry swap_for_y) price share swap_for_y f
    → settle_bin rx ry swap_for_y host f ≡ ok q
    → Conserves amount_in rx ry price share swap_for_y q
unfolding settle_bin
settle_bin-Conserves amount_in rx ry price share swap_for_y host f {q} ha hx hy filled h =
    let (host_fee, e₁, h₁) = >>=-eq-ok (compute_host_fee f.protocol_fee host) _ h in
    let (after, e₂, h₂) = >>=-eq-ok (sub_u64 f.protocol_fee host_fee) _ h₁ in
    let (into, e₃, h₃) = >>=-eq-ok (sub_u64 f.amount_in_with_fees f.fee) _ h₂ in
    let (r, e₄, h₄) = >>=-eq-ok (move_reserves rx ry into f.amount_out swap_for_y) _ h₃ in
    let sum = (sub_u64-ok f.amount_in_with_fees f.fee e₃ (omega (arith, filled.within))).1 in
    let same : filled.net ≡ into = omega (arith, filled.net_fee) in
    subst (Conserves amount_in rx ry price share swap_for_y) (ok-injective h₄) (record {
      within = filled.within;
      balanced = sum;
      fee_split = (sub_u64-ok f.protocol_fee host_fee e₂ filled.share_fits).1 ∙ filled.shares;
      out_within = filled.out_within;
      moved =
          move_reserves-Moves rx ry into f.amount_out swap_for_y hx hy
            (omega (arith, filled.within)) e₄;
      pays = rw same at (filled.pays);
    })

-- A successful quote against one bin, of uint64 amounts and a price: the input with fees is at most
-- the amount offered and is what goes into the bin plus the fee; the protocol's share of the fee is
-- the part after the host plus the host's; the output is at most the bin's reserve; the reserves move
-- by exactly these amounts; and what goes into the bin is worth at least the output at the price.
pub quote_swap_on_bin-Conserves :
    (amount_in rx ry price : ℕ) (swap_for_y : Bool) (rate share : ℕ) (host : Option ℕ)
    {q : BinSwapQuote}
    → amount_in < u64_mod
    → rx < u64_mod
    → ry < u64_mod
    → quote_swap_on_bin amount_in rx ry (nat price) swap_for_y rate share host ≡ ok q
    → Conserves amount_in rx ry price share swap_for_y q
unfolding quote_swap_on_bin
quote_swap_on_bin-Conserves amount_in rx ry price swap_for_y rate share host {q} ha hx hy h =
    let max_out = get_max_amount_out rx ry swap_for_y in
    let (no_fee, e₁, h₁) = >>=-eq-ok (get_max_amount_in max_out (nat price) swap_for_y) _ h in
    let (max_fee, e₂, h₂) = >>=-eq-ok (compute_fee no_fee rate) _ h₁ in
    let (with_fee, e₃, h₃) = >>=-eq-ok (add_u64 no_fee max_fee) _ h₂ in
    let (f, e₄, h₄) =
      >>=-eq-ok (fill_bin amount_in max_out max_fee with_fee (nat price) swap_for_y rate share) _
        h₃ in
    let (pays, small) = get_max_amount_in-ok max_out price swap_for_y e₁ in
    let (_, _, small') = compute_fee-ok no_fee rate e₂ in
    let (sum, _) = add_u64-ok no_fee max_fee e₃ small small' in
    let good =
      fills amount_in max_out max_fee with_fee price swap_for_y rate share f no_fee sum pays ha
        e₄ in
    settle_bin-Conserves amount_in rx ry price share swap_for_y host f ha hx hy good h₄
