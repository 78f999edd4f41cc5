-- ===== src/Quote/Constant/RayCpmm/Keeps.antt =====
-- quote/raycpmm/swap_quote.go: the swap keeps the product of the reserves and is monotone.
use soldex.Base.{
  ℕ, ◌-◌, ◌*◌, ◌≤◌, ◌<◌, ◌≡◌, inl, inr, arith, Bool, true, false, leb, Bool-cases, leb→lt,
}
use soldex.Base.Words.{u64_mod}
use soldex.Base.Division.{ceil_div, ceil_div-add_pred}
use soldex.Quote.Constant.Product.{
  KeepsProduct, curve-KeepsProduct, KeepsProduct-less, KeepsProduct-zero, net_mono, curve-le,
  curve_mono_all,
}
use soldex.Quote.Constant.RayCpmm.{
  swap_base_input, ceil_fee, input_fee_rate, curve_out, fee_rate_denominator,
}

-- A swap of any amount at any rates, on either side: the reserve covers the output, and the product of
-- the reserves, with the whole amount paid in, does not fall.
pub swap_base_input-KeepsProduct :
    (reserve_in reserve_out amount_in trade creator : ℕ) (on_input : Bool)
    → KeepsProduct reserve_in reserve_out amount_in
        (swap_base_input reserve_in reserve_out amount_in trade creator on_input)
unfolding swap_base_input curve_out
swap_base_input-KeepsProduct reserve_in reserve_out amount_in trade creator on_input =
    let fee = ceil_fee amount_in (input_fee_rate trade creator on_input) in
    elim (Bool-cases (leb amount_in fee)) [
      | inl eaten ↦ rw eaten (KeepsProduct-zero reserve_in reserve_out amount_in)
      | inr paid ↦
          let net = amount_in - fee in
          let lt = leb→lt _ _ paid in
          let keeps = curve-KeepsProduct reserve_in reserve_out net (omega arith) in
          let gross = curve_out reserve_in reserve_out net in
          let less = λ (out : ℕ) (h : out ≤ gross).
            KeepsProduct-less reserve_in reserve_out net amount_in gross out (omega arith) h
              keeps in
          rw paid (less _ (ground arith))
    ]

-- The output before the creator fee, and what is taken from it.
abbrev pub final_out : ℕ → ℕ → Bool → ℕ
final_out gross creator true = gross
final_out gross creator false = gross - ceil_fee gross creator

abbrev pub net_input : ℕ → ℕ → ℕ → Bool → ℕ
net_input amount_in trade creator on_input =
    amount_in - ceil_fee amount_in (input_fee_rate trade creator on_input)

final_out-le : (gross creator : ℕ) (on_input : Bool) → final_out gross creator on_input ≤ gross
final_out-le gross creator true = omega arith
final_out-le gross creator false = omega arith

-- Over a uint64 reserve the swap is the closed form: the input net of its fee through the curve, less
-- the creator fee where that is on the output; nothing is truncated and no branch departs from it.
pub swap_base_input_closed :
    (reserve_in reserve_out amount_in trade creator : ℕ) (on_input : Bool)
    → reserve_out < u64_mod
    → swap_base_input reserve_in reserve_out amount_in trade creator on_input
      ≡ final_out
          (curve_out reserve_in reserve_out (net_input amount_in trade creator on_input))
          creator
          on_input
unfolding swap_base_input curve_out
swap_base_input_closed reserve_in reserve_out amount_in trade creator true h =
    let le = curve-le reserve_in reserve_out (net_input amount_in trade creator true) in
    ground (arith)
swap_base_input_closed reserve_in reserve_out amount_in trade creator false h =
    let le = curve-le reserve_in reserve_out (net_input amount_in trade creator false) in
    ground (arith)

pub ceil_fee-ceil_div : (a rate : ℕ) → ceil_fee a rate ≡ ceil_div (a * rate) fee_rate_denominator
unfolding ceil_fee
ceil_fee-ceil_div a rate = ceil_div-add_pred (a * rate) fee_rate_denominator (omega arith)

less_fee_mono :
    (a b rate : ℕ) → rate ≤ fee_rate_denominator → a ≤ b → a - ceil_fee a rate ≤ b - ceil_fee b rate
less_fee_mono a b rate h k =
    rw (ceil_fee-ceil_div a rate, ceil_fee-ceil_div b rate)
      (net_mono a b rate fee_rate_denominator (omega arith) h k)

final_out_mono :
    (a b creator : ℕ) (on_input : Bool)
    → creator ≤ fee_rate_denominator
    → a ≤ b
    → final_out a creator on_input ≤ final_out b creator on_input
final_out_mono a b creator true h k = k
final_out_mono a b creator false h k = less_fee_mono a b creator h k

-- At rates of at most one, over a uint64 reserve, a larger amount never gives less.
swap_base_input_mono :
    (reserve_in reserve_out a b trade creator : ℕ) (on_input : Bool)
    → input_fee_rate trade creator on_input ≤ fee_rate_denominator
    → creator ≤ fee_rate_denominator
    → reserve_out < u64_mod
    → a ≤ b
    → swap_base_input reserve_in reserve_out a trade creator on_input
      ≤ swap_base_input reserve_in reserve_out b trade creator on_input
unfolding curve_out
swap_base_input_mono reserve_in reserve_out a b trade creator on_input h k fits le =
    rw
      (
        swap_base_input_closed reserve_in reserve_out a trade creator on_input fits,
        swap_base_input_closed reserve_in reserve_out b trade creator on_input fits,
      )
      (final_out_mono _ _ creator on_input k (
        curve_mono_all reserve_in reserve_out _ _
          (less_fee_mono a b (input_fee_rate trade creator on_input) h le)))
