-- ===== src/Quote/Constant/RayAmmV4/Keeps.antt =====
-- quote/rayammv4/swap_quote.go: the swap keeps the product of the reserves and is monotone.
use soldex.Base.{
  ℕ, ◌+◌, ◌-◌, ◌*◌, ◌/◌, ◌≤◌, ◌<◌, ◌≡◌, inl, inr, arith, leb, ◌==◌, Bool-cases, leb→le, leb→lt,
}
use soldex.Base.Words.{u64_mod}
use soldex.Base.Division.{ceil_div, ceil_div-add_pred}
use soldex.Quote.Constant.Product.{
  KeepsProduct, curve-KeepsProduct, KeepsProduct-less, KeepsProduct-zero, curve_mono, net_mono,
  low_word, low_word_exact,
}
use soldex.Quote.Constant.RayAmmV4.{swap_base_in, input_fee}

-- A swap of any amount at any fee: the reserve covers the output, and the product of the reserves, with
-- the whole amount paid in, does not fall.
pub swap_base_in-KeepsProduct :
    (reserve_in reserve_out amount_in num den : ℕ)
    → KeepsProduct reserve_in reserve_out amount_in
        (swap_base_in reserve_in reserve_out amount_in num den)
unfolding swap_base_in
swap_base_in-KeepsProduct reserve_in reserve_out amount_in num den =
    let fee = input_fee amount_in num den in
    let zero_out = KeepsProduct-zero reserve_in reserve_out amount_in in
    elim (Bool-cases (den == 0)) [
      | inl free ↦ rw free zero_out
      | inr rated ↦ elim (Bool-cases (leb amount_in fee)) [
        | inl eaten ↦ rw (rated, eaten) zero_out
        | inr paid ↦
            let net = amount_in - fee in
            let lt = leb→lt _ _ paid in
            let keeps = curve-KeepsProduct reserve_in reserve_out net (omega arith) in
            rw (rated, paid)
              (KeepsProduct-less reserve_in reserve_out net amount_in _ _ (omega arith) (low_word _)
                keeps)
      ]
    ]

input_fee-ceil_div : (a num den : ℕ) → 0 < den → input_fee a num den ≡ ceil_div (a * num) den
unfolding input_fee
input_fee-ceil_div a num den h = ceil_div-add_pred (a * num) den h

-- The output of an amount whose fee leaves something.
swap_base_in-paid :
    (reserve_in reserve_out amount_in num den : ℕ)
    → 0 < den
    → reserve_out < u64_mod
    → input_fee amount_in num den < amount_in
    → let net = amount_in - input_fee amount_in num den in
      swap_base_in reserve_in reserve_out amount_in num den ≡ reserve_out * net / (reserve_in + net)
unfolding swap_base_in
swap_base_in-paid reserve_in reserve_out amount_in num den h k l =
    let net = amount_in - input_fee amount_in num den in
    let (le, _) = curve-KeepsProduct reserve_in reserve_out net (omega arith) in
    ground (arith, low_word_exact (reserve_out * net / (reserve_in + net)) reserve_out le k)

swap_base_in-eaten :
    (reserve_in reserve_out amount_in num den : ℕ)
    → amount_in ≤ input_fee amount_in num den
    → swap_base_in reserve_in reserve_out amount_in num den ≡ 0
unfolding swap_base_in
swap_base_in-eaten reserve_in reserve_out amount_in num den h = ground arith

-- At a fee rate of at most one, over a uint64 reserve, a larger amount never gives less.
swap_base_in_mono :
    (reserve_in reserve_out a b num den : ℕ)
    → 0 < den
    → num ≤ den
    → reserve_out < u64_mod
    → a ≤ b
    → swap_base_in reserve_in reserve_out a num den ≤ swap_base_in reserve_in reserve_out b num den
swap_base_in_mono reserve_in reserve_out a b num den h k l m =
    let nets =
      rw (← input_fee-ceil_div a num den h, ← input_fee-ceil_div b num den h) at
        (net_mono a b num den h k m) in
    elim (Bool-cases (leb a (input_fee a num den))) [
      | inl eaten ↦
          rw (swap_base_in-eaten reserve_in reserve_out a num den (leb→le _ _ eaten)) (omega arith)
      | inr paid ↦
          let lt = leb→lt _ _ paid in
          rw
            (
              swap_base_in-paid reserve_in reserve_out a num den h l lt,
              swap_base_in-paid reserve_in reserve_out b num den h l (omega arith),
            )
            (curve_mono reserve_in reserve_out _ _ (omega arith) nets)
    ]
