-- ===== src/Quote/Orca/Step/Raydium.antt =====
-- quote/orca/swap_quote.go: a step is a step of Raydium with the fee on the input.
use soldex.Base.{
  ℕ, ◌-◌, ◌*◌, ◌%◌, ◌≤◌, ◌<◌, ◌≡◌, refl, sym, ap, ◌∙◌, inl, inr, arith, Bool, true, false, ltb, leb,
  ◌==◌, Result, ok, ◌>>=◌, Bool-cases, leb→le, leb→lt,
}
use soldex.Base.Words.{max_u64, u64_mod, sub_wrap_exact}
use soldex.Base.Division.{ceil_div}
use soldex.Math.Common.{nat}
use soldex.Math.Common.Success.{div_ceil-nat}
use soldex.Math.Orca.Curve.{
  amount_a_between, amount_b_between, get_delta_amount_a, get_delta_amount_b, next_sqrt_price,
}
use soldex.Math.Raydium.Step
use soldex.Math.Raydium.Step.{fee_rate_denominator, fee_complement, amount_for_calc}
use soldex.Math.Raydium.Step.Amounts.{
  order-sym, delta_in, delta_out, next_sqrt_price_from_input-covers,
  next_sqrt_price_from_input-eq-orca, input_between-eq, output_between-eq,
}
use soldex.Math.Raydium.Step.Fees.{
  complement_eq, amount-le, apart, eq_self, target_reached, target_missed,
}
use soldex.Math.Raydium.SqrtPrice.{next_sqrt_price_from_input}
use soldex.Math.Raydium.Liquidity.Orca.{ceil_quo-of_pos}
use soldex.Base.Int.{pos, sub_ℕ}
use soldex.Math.Raydium.Step.Draws.{pos_liquidity}
use soldex.Quote.Raydium.State
use soldex.Quote.Orca.Step.{
  SwapStep, to_u64, fixed_delta, unfixed_delta, amount_calc, step_fee, reaches_target, next_price,
  compute_swap_step, fee_rate_mul_value,
}

pub fixed_delta-eq : (p q l : ℕ) (z : Bool) → fixed_delta p q l z ≡ delta_in p q l z
unfolding fixed_delta get_delta_amount_a
fixed_delta-eq p q l true = ap (amount_a_between true l) (order-sym p q)
fixed_delta-eq p q l false = refl

pub unfixed_delta-eq : (p q l : ℕ) (z : Bool) → unfixed_delta p q l z ≡ delta_out p q l z
unfolding unfixed_delta get_delta_amount_b
unfixed_delta-eq p q l true = ap (amount_b_between false l) (order-sym p q)
unfixed_delta-eq p q l false = refl

pub amount_calc-eq :
    (rem rate : ℕ)
    → rate < fee_rate_mul_value
    → amount_calc rem rate ≡ amount_for_calc rem rate true
unfolding amount_calc amount_for_calc
amount_calc-eq rem rate h = rw (complement_eq rate h) refl

-- The step of a Raydium pool as the words that an Orca quote goes on with.
unfoldable pub words_of : Step.SwapStep → Result SwapStep
words_of s = do
  amount_in ← State.to_u64 s.amount_in
  amount_out ← State.to_u64 s.amount_out
  fee_amount ← State.to_u64 s.fee_amount
  ok (record {
    amount_in = amount_in;
    amount_out = amount_out;
    fee_amount = fee_amount;
    next_price = s.sqrt_price_next;
  })

reaches : (t a : ℕ) → t ≤ a → a < u64_mod → reaches_target t a ≡ true
unfolding reaches_target
reaches t a h k = ground arith

misses : (t a : ℕ) → a < t → reaches_target t a ≡ false
unfolding reaches_target
misses t a h = ground arith

step_fee-max :
    (rem a t rate : ℕ)
    → rate < fee_rate_mul_value
    → step_fee rem a t rate true ≡ to_u64 (ceil_div (t * rate) (fee_rate_mul_value - rate))
unfolding step_fee
step_fee-max rem a t rate h =
    rw (div_ceil-nat (t * rate) (fee_rate_mul_value - rate) (omega arith)) refl

pub word_of : (n : ℕ) → n < u64_mod → to_u64 n ≡ ok n
unfolding to_u64
word_of n h = ground arith

pub big_word : (n : ℕ) → State.to_u64 (nat n) ≡ to_u64 n
unfolding State.to_u64 to_u64
big_word n = refl

-- The step reaches the target for an amount `t` and gives `o`.
max_step : (target t o fee : ℕ) → Result SwapStep
max_step target t o fee = do
  amount_out ← to_u64 o
  fee_amount ← to_u64 fee
  ok (record {
    amount_in = t;
    amount_out = amount_out;
    fee_amount = fee_amount;
    next_price = target;
  })

-- The step stops at `q`.
short_step : (q v o rem : ℕ) → Result SwapStep
short_step q v o rem = do
  amount_out ← to_u64 o
  ok (record { amount_in = v; amount_out = amount_out; fee_amount = rem - v; next_price = q })

module _ (current target l rem rate : ℕ) (z : Bool) (rated : rate < fee_rate_mul_value)
    (fits : rem < u64_mod) where
  orca-max :
      delta_in current target l z ≤ amount_calc rem rate
      → amount_calc rem rate < u64_mod
      → compute_swap_step rem rate l current target z
        ≡ max_step target
            (delta_in current target l z)
            (delta_out current target l z)
            (ceil_div (delta_in current target l z * rate) (fee_rate_mul_value - rate))
  unfolding compute_swap_step next_price max_step
  orca-max le small =
      let t = delta_in current target l z in
      let a = amount_calc rem rate in
      let word = word_of t (omega arith) in
      let within : ltb max_u64 t ≡ false = ground arith in
      rw
        (
          fixed_delta-eq current target l z,
          reaches t a le small,
          eq_self target,
          within,
          word,
          unfixed_delta-eq current target l z,
          step_fee-max rem t t rate rated,
        )
        refl

  raydium-max :
      0 < current
      → 0 < target
      → delta_in current target l z ≤ amount_for_calc rem rate true
      → amount_for_calc rem rate true < u64_mod
      → (Step.compute_swap_step current target l rem rate z true >>= words_of)
        ≡ max_step target
            (delta_in current target l z)
            (delta_out current target l z)
            (ceil_div (delta_in current target l z * rate) (fee_rate_mul_value - rate))
  unfolding Step.compute_swap_step Step.calc_amount_in_to_target Step.next_price Step.step_input
      Step.reaches_target Step.take_fee Step.input_fee Step.big_of max_step words_of to_u64
      State.to_u64
  raydium-max pos_c pos_t le small =
      let t = delta_in current target l z in
      let a = amount_for_calc rem rate true in
      let word = word_of t (omega arith) in
      let test : leb t a ≡ true = ground arith in
      rw
        (
          input_between-eq current target l z pos_c pos_t,
          target_reached t a le small,
          test,
          eq_self target,
          output_between-eq current target l z pos_c pos_t,
          complement_eq rate rated,
          ceil_quo-of_pos (t * rate) (fee_rate_mul_value - rate) (omega arith),
          word,
        )
        refl

  orca-short :
      (q : ℕ)
      → amount_calc rem rate < delta_in current target l z
      → next_sqrt_price current l (amount_calc rem rate) true z ≡ ok q
      → delta_in current q l z ≤ rem
      → q == target ≡ false
      → compute_swap_step rem rate l current target z
        ≡ short_step q (delta_in current q l z) (delta_out current q l z) rem
  unfolding compute_swap_step next_price short_step step_fee
  orca-short q less run within off =
      let t = delta_in current target l z in
      let v = delta_in current q l z in
      rw
        (
          fixed_delta-eq current target l z,
          misses t (amount_calc rem rate) less,
          run,
          off,
          fixed_delta-eq current q l z,
          word_of v (omega arith),
          unfixed_delta-eq current q l z,
          sub_wrap_exact rem v within fits,
        )
        refl

  raydium-short :
      (q : ℕ)
      → 0 < current
      → 0 < target
      → 0 < q
      → amount_for_calc rem rate true < delta_in current target l z
      → amount_for_calc rem rate true < u64_mod
      → next_sqrt_price_from_input current l (amount_for_calc rem rate true) z ≡ ok q
      → delta_in current q l z ≤ rem
      → target == q ≡ false
      → (Step.compute_swap_step current target l rem rate z true >>= words_of)
        ≡ short_step q (delta_in current q l z) (delta_out current q l z) rem
  unfolding Step.compute_swap_step Step.calc_amount_in_to_target Step.next_price Step.step_input
      Step.take_fee Step.input_fee Step.big_of short_step words_of
  raydium-short q pos_c pos_t pos_q less small run within off =
      let t = delta_in current target l z in
      let a = amount_for_calc rem rate true in
      let v = delta_in current q l z in
      let same : a % u64_mod ≡ a = omega arith in
      let left : sub_ℕ rem v ≡ pos (rem - v) = ground arith in
      rw
        (
          input_between-eq current target l z pos_c pos_t,
          target_missed t a less,
          same,
          run,
          off,
          input_between-eq current q l z pos_c pos_q,
          output_between-eq current q l z pos_c pos_q,
          left,
          big_word v,
          word_of v (omega arith),
          big_word (delta_out current q l z),
          big_word (rem - v),
          word_of (rem - v) (omega arith),
        )
        refl

  -- A step of an Orca swap is the step of a Raydium swap with the fee on the input, as words: at a
  -- rate below 100%, from and to prices that are not zero and with a uint64 left to swap, the two
  -- give the same amounts, fee and price, and fail on the same inputs.
  pub compute_swap_step-eq-raydium :
      0 < current
      → 0 < target
      → compute_swap_step rem rate l current target z
        ≡ (Step.compute_swap_step current target l rem rate z true >>= words_of)
  compute_swap_step-eq-raydium pos_c pos_t =
      let same = amount_calc-eq rem rate rated in
      let le_rem = amount-le rem rate true rated in
      let t = delta_in current target l z in
      let a = amount_for_calc rem rate true in
      elim (Bool-cases (leb t a)) [
        | inl reached ↦
            let le = leb→le _ _ reached in
            orca-max (omega arith) (omega arith) ∙ sym (raydium-max pos_c pos_t le (omega arith))
        | inr short ↦
            let less = leb→lt _ _ short in
            let pos_l = pos_liquidity current target l rem rate z rated a less in
            let (q, run, pos_q, covers) =
              next_sqrt_price_from_input-covers current l a z pos_c pos_l in
            let orca = sym (next_sqrt_price_from_input-eq-orca current l a z pos_c pos_l) ∙ run in
            let off = apart current target q l a z less covers in
            let off' : q == target ≡ false = ground arith in
            orca-short q (omega arith) (ap (λ n. next_sqrt_price current l n true z) same ∙ orca)
              (omega arith) off'
            ∙ sym (raydium-short q pos_c pos_t pos_q less (omega arith) run (omega arith) off)
      ]
