-- ===== src/Math/Raydium/Step/Draws.antt =====
-- math/raydium/swap_math.go: every step draws, pays and gives what it should.
use mathlib.Core.Path.{subst}
use soldex.Base.{
  ℕ, ◌%◌, ◌≤◌, ◌<◌, ◌≡◌, refl, sym, ◌∙◌, inl, inr, arith, Bool, true, false, Option, none, some,
  ltb, leb, ◌==◌, if◌then◌else◌, ok, Bool-cases, leb→le, leb→lt, ==→eq,
}
use soldex.Base.Words.{max_u64, u64_mod}
use soldex.Math.Raydium.Step.{
  SwapStep, fee_rate_denominator, amount_for_calc, calc_amount_in_to_target, reaches_target,
  next_price, step_input, compute_swap_step,
}
use soldex.Math.Raydium.Step.Amounts.{
  delta_in, delta_out, delta_in-zero, input_between-eq, output_between-eq,
  next_sqrt_price_from_input-covers, next_sqrt_price_from_input-eq-orca,
}
use soldex.Math.Raydium.Step.Outcome.{Draws, EndsAt, usable}
use soldex.Math.Raydium.Step.Fees.{
  amount_for_calc-usable, amount-le, apart, eq_self, target_reached, target_missed, take_fee-max,
  take_fee-short,
}

module _ (current target l rem rate : ℕ) (z : Bool) (rated : rate < fee_rate_denominator) where
  step_with :
      (on_input : Bool) (to_target : Option ℕ)
      → 0 < current
      → 0 < target
      → 0 < l
      → amount_for_calc rem rate on_input < delta_in current target l z
      → reaches_target to_target (amount_for_calc rem rate on_input) ≡ false
      → amount_for_calc rem rate on_input < u64_mod
      → (q : ℕ) × (next_price current target l (amount_for_calc rem rate on_input) z to_target
          ≡ ok q)
        × (0 < q)
        × (delta_in current q l z ≤ amount_for_calc rem rate on_input)
        × (target == q ≡ false)
        × EndsAt current target l (usable rem rate on_input) z q
  unfolding next_price
  step_with on_input to_target pos_c pos_t pos_l less short fits =
      let a = amount_for_calc rem rate on_input in
      let same : a % u64_mod ≡ a = omega arith in
      let (q, e, pos_q, covers) = next_sqrt_price_from_input-covers current l a z pos_c pos_l in
      let off = apart current target q l a z less covers in
      let orca = sym (next_sqrt_price_from_input-eq-orca current l a z pos_c pos_l) ∙ e in
      let moved : EndsAt current target l a z q = inr (ground arith, less, orca) in
      (
        q,
        rw (short, same) e,
        pos_q,
        covers,
        off,
        subst (λ n. EndsAt current target l n z q) (amount_for_calc-usable rem rate on_input rated)
            moved,
      )

  -- The two cases of the step, by whether the amount reaches the target.
  step_to_target :
      (on_input : Bool)
      → 0 < current
      → 0 < target
      → amount_for_calc rem rate on_input < u64_mod
      → delta_in current target l z ≤ amount_for_calc rem rate on_input
      → (s : SwapStep) × (compute_swap_step current target l rem rate z on_input ≡ ok s)
        × Draws current target l rem rate z on_input s
  unfolding compute_swap_step calc_amount_in_to_target next_price step_input reaches_target
  step_to_target on_input pos_c pos_t fits le =
      let a = amount_for_calc rem rate on_input in
      let t = delta_in current target l z in
      let out = delta_out current target l z in
      let (s, run, draws) =
        take_fee-max current target l rem rate z rated on_input t out pos_t le refl refl in
      let test : leb t a ≡ true = ground arith in
      (
        s,
        rw
            (
              input_between-eq current target l z pos_c pos_t,
              target_reached t a le fits,
              test,
              eq_self target,
              output_between-eq current target l z pos_c pos_t,
            )
            run,
        draws,
      )

  step_short :
      (on_input : Bool)
      → 0 < current
      → 0 < target
      → amount_for_calc rem rate on_input < u64_mod
      → amount_for_calc rem rate on_input < delta_in current target l z
      → 0 < l
      → (s : SwapStep) × (compute_swap_step current target l rem rate z on_input ≡ ok s)
        × Draws current target l rem rate z on_input s
  unfolding compute_swap_step calc_amount_in_to_target step_input
  step_short on_input pos_c pos_t fits less pos_l =
      let a = amount_for_calc rem rate on_input in
      let t = delta_in current target l z in
      let to_target = if ltb max_u64 t then none else some t in
      let (q, e, pos_q, covers, off, moved) =
        step_with on_input to_target pos_c pos_t pos_l less (target_missed t a less) fits in
      let v = delta_in current q l z in
      let within : v ≤ rem = omega (arith, amount-le rem rate on_input rated) in
      let (s, run, draws) =
        take_fee-short current target l rem rate z rated on_input q v (delta_out current q l z)
          pos_q within (ground arith) moved refl refl in
      (
        s,
        rw
            (
              input_between-eq current target l z pos_c pos_t,
              e,
              off,
              input_between-eq current q l z pos_c pos_q,
              output_between-eq current q l z pos_c pos_q,
            )
            run,
        draws,
      )

  pub pos_liquidity : (a : ℕ) → a < delta_in current target l z → 0 < l
  pos_liquidity a h = elim (Bool-cases (l == 0)) [
    | inl none_left ↦ absurd (
        let e =
          subst (λ n. delta_in current target n z ≡ 0) (sym (==→eq _ _ none_left))
            (delta_in-zero current target z) in
        omega arith)
    | inr some_left ↦ ground arith
  ]

  -- From and to prices that are not zero, of a uint64 and at a rate below 100%, a step always succeeds.
  -- It ends at the target exactly if the usable input, which a fee on the input has been taken from,
  -- covers the amount to it, and otherwise at the price that the usable input moves to. It draws the
  -- amount of the curve to that price, rounded up, or the whole remaining input where the fee is on the
  -- output and the target is not reached. The fee is that of the input drawn or of the output, rounded
  -- up, or what the input leaves where the fee is on it and the target is not reached. The output and
  -- the fee on it are the amount of the curve, rounded down. Input and fee are at most what remains,
  -- and all of it unless the step ends at the target.
  pub compute_swap_step-Draws :
      (on_input : Bool)
      → 0 < current
      → 0 < target
      → rem < u64_mod
      → (s : SwapStep) × (compute_swap_step current target l rem rate z on_input ≡ ok s)
        × Draws current target l rem rate z on_input s
  compute_swap_step-Draws on_input pos_c pos_t fits =
      let a = amount_for_calc rem rate on_input in
      let small : a < u64_mod = omega (arith, amount-le rem rate on_input rated) in
      elim (Bool-cases (leb (delta_in current target l z) a)) [
        | inl reached ↦ step_to_target on_input pos_c pos_t small (leb→le _ _ reached)
        | inr short ↦
            let less = leb→lt _ _ short in
            step_short on_input pos_c pos_t small less (pos_liquidity a less)
      ]
