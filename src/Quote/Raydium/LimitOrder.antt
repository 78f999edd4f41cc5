-- ===== src/Quote/Raydium/LimitOrder.antt =====
-- quote/raydium/limit_order.go: the resting orders of a tick, filled at the tick's price.
-- An input that is negative after its fee, at a rate above 100%, ends in the overflow error of the
-- booking; `net_input` returns it at once.
pub mod Fills
use soldex.Base.{
  ℕ, ◌-◌, ◌*◌, Bool, true, false, not, ◌||◌, some, ltb, ◌==◌, if◌then◌else◌, Result, ok, err, ◌>>=◌,
  ◌>>◌, fail_if, amount_overflow,
}
use soldex.Base.Int.{sub_ℕ}
use soldex.Math.Common.{BigInt, nat}
use soldex.Math.Raydium.Liquidity.{ceil_quo}
use soldex.Math.Raydium.Step.{fee_rate_denominator}
use soldex.Math.Raydium.Tick.{price_from_sqrt_price, limit_order_output, limit_order_input}
use soldex.Quote.Raydium.State.{SwapState, to_u64, apply}

-- An input, its fee and the gross output.
pub record Fill : Type 0 where
  pub amount_in : ℕ
  pub fee : ℕ
  pub amount_out : ℕ

-- The input less the fee on it, and the fee.
unfoldable pub net_input : (remaining fee_rate : ℕ) → Bool → Result (ℕ × ℕ)
net_input remaining fee_rate false = ok (remaining, 0)
net_input remaining fee_rate true = do
  fee ← ceil_quo (remaining * fee_rate) fee_rate_denominator
  if ltb remaining fee then err amount_overflow else ok (remaining - fee, fee)

-- The fee on the input that the resting orders take. Here the rate is below the denominator, since
-- some of the input is left after the fee.
unfoldable pub fee_on_fill : (amount_in fee_rate : ℕ) → Bool → Result ℕ
fee_on_fill amount_in fee_rate false = ok 0
fee_on_fill amount_in fee_rate true =
    ceil_quo (amount_in * fee_rate) (fee_rate_denominator - fee_rate)

-- The fill by the input, or by the resting orders where these run out.
unfoldable pub fill_orders : (remaining resting price fee_rate : ℕ) → Bool → Bool → Result Fill
fill_orders remaining resting price fee_rate zero_for_one fee_on_input = do
  (amount_in, fee) ← net_input remaining fee_rate fee_on_input
  amount_out ← limit_order_output amount_in price zero_for_one
  if ltb resting amount_out
      then (do
        whole ← limit_order_input resting price (not zero_for_one)
        whole_fee ← fee_on_fill whole fee_rate fee_on_input
        ok (record { amount_in = whole; fee = whole_fee; amount_out = resting }))
      else ok (record { amount_in = amount_in; fee = fee; amount_out = amount_out })

-- The fee and the output that are booked.
unfoldable pub book_fee : Fill → ℕ → Bool → Result (BigInt × BigInt)
book_fee fill fee_rate true = ok (nat fill.amount_out, nat fill.fee)
book_fee fill fee_rate false = do
  fee ← ceil_quo (fill.amount_out * fee_rate) fee_rate_denominator
  ok (some (sub_ℕ fill.amount_out fee), nat fee)

unfoldable pub book_fill : SwapState → ℕ → Fill → ℕ → Bool → Result (SwapState × ℕ)
book_fill s unfilled fill fee_rate fee_on_input = do
  filled ← to_u64 (nat fill.amount_out)
  fail_if (ltb unfilled filled) amount_overflow
  (amount_out, fee) ← book_fee fill fee_rate fee_on_input
  s' ← apply s (nat fill.amount_in) amount_out fee fee_on_input
  ok (s', unfilled - filled)

-- The state after the match, and the order size still unfilled.
unfoldable pub match_limit_orders :
    SwapState → (unfilled tick_sqrt_price fee_rate : ℕ) → Bool → Bool → Result (SwapState × ℕ)
match_limit_orders s unfilled tick_sqrt_price fee_rate zero_for_one fee_on_input =
    if s.amount_remaining == 0 || unfilled == 0 then ok (s, unfilled) else (do
      let price = price_from_sqrt_price tick_sqrt_price (not zero_for_one)
      fill ← fill_orders s.amount_remaining unfilled price fee_rate zero_for_one fee_on_input
      book_fill s unfilled fill fee_rate fee_on_input)
