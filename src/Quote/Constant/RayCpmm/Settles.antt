-- ===== src/Quote/Constant/RayCpmm/Settles.antt =====
-- quote/raycpmm/swap_quote.go: the output of a swap, determined without a division.
use soldex.Base.{
  ℕ, ◌+◌, ◌-◌, ◌*◌, ◌≤◌, ◌<◌, ◌≡◌, ◌⊎◌, inl, inr, arith, Bool, true, false, ltb, if◌then◌else◌,
  Bool-cases, ltb→lt, ltb→le,
}
use soldex.Base.Words.{u64_mod, add_wrap_exact}
use soldex.Base.Division.{ceil_div_bounds, div_bounds}
use soldex.Quote.Constant.RayCpmm.{
  swap_base_input, ceil_fee, input_fee_rate, curve_out, fee_rate_denominator,
}
use soldex.Quote.Constant.RayCpmm.Keeps.{swap_base_input_closed, ceil_fee-ceil_div}

-- The least fee that covers a number of millionths.
abbrev pub Covers : (millionths fee : ℕ) → Type 0
Covers millionths fee =
    (millionths ≤ fee * fee_rate_denominator)
    × (fee * fee_rate_denominator < millionths + fee_rate_denominator)

-- What a charge leaves of an amount: nothing where it is more.
abbrev pub Leaves : (amount charge rest : ℕ) → Type 0
Leaves amount charge rest = (rest + charge ≡ amount) ⊎ ((amount < charge) × (rest ≡ 0))

-- Each of the numbers is the only one that meets its conditions.
pub record Settles (reserve_in reserve_out amount_in trade creator : ℕ) (on_input : Bool) (out : ℕ)
    : Type 0 where
  pub fee : ℕ
  pub net : ℕ
  pub gross : ℕ
  pub creator_fee : ℕ
  pub charged : Covers (amount_in * (if on_input then trade + creator else trade)) fee
  pub left : Leaves amount_in fee net
  pub priced : gross * (reserve_in + net) ≤ reserve_out * net
  pub tight : reserve_out * net < (gross + 1) * (reserve_in + net)
  pub withheld : Covers (gross * (if on_input then 0 else creator)) creator_fee
  pub given : Leaves gross creator_fee out

sub-Leaves : (amount charge : ℕ) → Leaves amount charge (amount - charge)
sub-Leaves amount charge = elim (Bool-cases (ltb amount charge)) [
  | inl more ↦ inr (ltb→lt _ _ more, omega (arith, ltb→lt _ _ more))
  | inr less ↦ inl (omega (arith, ltb→le _ _ less))
]

ceil_fee-Covers : (amount rate : ℕ) → Covers (amount * rate) (ceil_fee amount rate)
ceil_fee-Covers amount rate =
    rw (ceil_fee-ceil_div amount rate)
      (ceil_div_bounds (amount * rate) fee_rate_denominator (omega arith))

curve_out-floor :
    (reserve_in reserve_out net : ℕ)
    → 0 < reserve_in
    → (curve_out reserve_in reserve_out net * (reserve_in + net) ≤ reserve_out * net)
      × (reserve_out * net < (curve_out reserve_in reserve_out net + 1) * (reserve_in + net))
unfolding curve_out
curve_out-floor reserve_in reserve_out net h =
    let (low, high) = div_bounds (reserve_out * net) (reserve_in + net) (omega arith) in
    (low, omega arith)

-- Over a uint64 reserve, from a reserve that is not zero and with rates whose sum does not wrap: the
-- fee is the least that covers its rate of the amount, which includes the creator's where that is on
-- the input; the gross output is the most that the curve gives for what the fee leaves of the amount;
-- and the output is what the least creator fee that covers its rate, where that is on the output,
-- leaves of it. A fee that is more than its amount leaves nothing.
pub swap_base_input-Settles :
    (reserve_in reserve_out amount_in trade creator : ℕ) (on_input : Bool)
    → 0 < reserve_in
    → reserve_out < u64_mod
    → trade + creator < u64_mod
    → Settles reserve_in reserve_out amount_in trade creator on_input
        (swap_base_input reserve_in reserve_out amount_in trade creator on_input)
unfolding input_fee_rate
swap_base_input-Settles reserve_in reserve_out amount_in trade creator true pos_in fits sum =
    let fee = ceil_fee amount_in (trade + creator) in
    let gross = curve_out reserve_in reserve_out (amount_in - fee) in
    let (low, high) = curve_out-floor reserve_in reserve_out (amount_in - fee) pos_in in
    rw
      (
        swap_base_input_closed reserve_in reserve_out amount_in trade creator true fits,
        add_wrap_exact trade creator sum,
      )
      (record {
        fee = fee;
        net = amount_in - fee;
        gross = gross;
        creator_fee = 0;
        charged = ceil_fee-Covers amount_in (trade + creator);
        left = sub-Leaves amount_in fee;
        priced = low;
        tight = high;
        withheld = (omega arith, omega arith);
        given = inl (omega arith);
      })
swap_base_input-Settles reserve_in reserve_out amount_in trade creator false pos_in fits sum =
    let fee = ceil_fee amount_in trade in
    let gross = curve_out reserve_in reserve_out (amount_in - fee) in
    let (low, high) = curve_out-floor reserve_in reserve_out (amount_in - fee) pos_in in
    rw (swap_base_input_closed reserve_in reserve_out amount_in trade creator false fits) (record {
      fee = fee;
      net = amount_in - fee;
      gross = gross;
      creator_fee = ceil_fee gross creator;
      charged = ceil_fee-Covers amount_in trade;
      left = sub-Leaves amount_in fee;
      priced = low;
      tight = high;
      withheld = ceil_fee-Covers gross creator;
      given = sub-Leaves gross (ceil_fee gross creator);
    })
