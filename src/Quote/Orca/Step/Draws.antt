-- ===== src/Quote/Orca/Step/Draws.antt =====
-- quote/orca/swap_quote.go: every step draws, pays and gives what it should, or gives too much for a
-- uint64.
use soldex.Base.{
  ℕ, ◌+◌, ◌≤◌, ◌<◌, ◌≡◌, refl, sym, ap, ◌∙◌, ◌⊎◌, inl, inr, arith, Bool, true, not, ◌||◌, ltb, ◌==◌,
  if◌then◌else◌, Result, ok, err, ◌>>=◌, amount_overflow, >>=-eq-ok, ok-injective, Bool-cases,
  ltb→lt,
}
use mathlib.Core.Path.{subst}
use soldex.Base.Words.{max_u64, u64_mod}
use soldex.Math.Raydium.Step
use soldex.Math.Raydium.Step.Amounts.{delta_in, delta_out}
use soldex.Math.Raydium.Step.Outcome
use soldex.Math.Raydium.Step.Draws.{compute_swap_step-Draws}
use soldex.Quote.Orca.Step.{
  SwapStep, to_u64, fixed_delta, next_price, amount_calc, step_fee, unfixed_delta,
  compute_swap_step, fee_rate_mul_value,
}
use soldex.Quote.Orca.Step.Raydium.{words_of, word_of, big_word, compute_swap_step-eq-raydium}

-- A step from `current` toward `target`, of a remaining input: the fields say of words what those of
-- the same name say of a Raydium step with the fee on the input.
pub record Draws (current target liquidity remaining rate : ℕ) (a_to_b : Bool) (s : SwapStep)
    : Type 0 where
  pub positive : 0 < s.next_price
  pub moved :
      Outcome.EndsAt current target liquidity
        (Outcome.usable remaining rate true)
        a_to_b
        s.next_price
  pub drawn : s.amount_in + s.fee_amount ≤ remaining
  pub paid : s.amount_in ≡ delta_in current s.next_price liquidity a_to_b
  pub charged :
      s.fee_amount
      ≡ Outcome.fee_of s.amount_in
          (delta_out current s.next_price liquidity a_to_b)
          remaining
          rate
          true
          (s.next_price == target)
  pub given : s.amount_out ≡ delta_out current s.next_price liquidity a_to_b
  pub word : s.amount_out ≤ max_u64
  pub ends : (s.next_price ≡ target) ⊎ (s.amount_in + s.fee_amount ≡ remaining)

-- The step succeeds, or its output at the price where it ends is no uint64.
pub StepOutcome : (current target liquidity remaining rate : ℕ) → Bool → Result SwapStep → Type 0
StepOutcome current target liquidity remaining rate a_to_b (ok s) =
    Draws current target liquidity remaining rate a_to_b s
StepOutcome current target liquidity remaining rate a_to_b (err e) =
    (e ≡ amount_overflow)
    × ((next : ℕ) × Outcome.EndsAt current target liquidity (Outcome.usable remaining rate true)
          a_to_b next
        × (max_u64 < delta_out current next liquidity a_to_b))

no_word : (n : ℕ) → max_u64 < n → to_u64 n ≡ err amount_overflow
unfolding to_u64
no_word n h = ground arith

module _ (current target l rem rate : ℕ) (z : Bool) (fits : rem < u64_mod) where
  words_of-StepOutcome :
      (s : Step.SwapStep)
      → Outcome.Draws current target l rem rate z true s
      → StepOutcome current target l rem rate z (words_of s)
  unfolding words_of StepOutcome
  words_of-StepOutcome s d =
      let i = d.amount_in in
      let o = d.amount_out in
      let fee = d.fee in
      elim (Bool-cases (ltb max_u64 o)) [
        | inl large ↦
            rw
              (
                d.in_eq,
                d.out_eq,
                big_word i,
                word_of i (omega (arith, d.drawn)),
                big_word o,
                no_word o (ltb→lt _ _ large),
              )
              (refl, (s.sqrt_price_next, d.moved, omega (arith, d.given, ltb→lt _ _ large)))
        | inr small ↦
            rw
              (
                d.in_eq,
                d.out_eq,
                d.fee_eq,
                big_word i,
                word_of i (omega (arith, d.drawn)),
                big_word o,
                word_of o (ground arith),
                big_word fee,
                word_of fee (omega (arith, d.drawn)),
              )
              (record {
                positive = d.positive;
                moved = d.moved;
                drawn = d.drawn;
                paid = d.paid;
                charged = d.charged;
                given = omega (arith, d.given);
                word = ground arith;
                ends = d.ends;
              })
      ]

  -- From and to prices that are not zero, at a rate below 100% and with a uint64 left. The step ends at
  -- the target exactly if the input that the fee leaves covers the amount to it, and otherwise at the
  -- price that this input moves to. It fails only where the output of the curve at that price is no
  -- uint64. Else the input is the amount of the curve, rounded up, the output that of the curve, rounded
  -- down, and the fee that of the input, rounded up, or before the target what the input leaves; input
  -- and fee are at most what remains, and all of it unless the step ends at the target.
  pub compute_swap_step-StepOutcome :
      rate < fee_rate_mul_value
      → 0 < current
      → 0 < target
      → StepOutcome current target l rem rate z (compute_swap_step rem rate l current target z)
  compute_swap_step-StepOutcome rated pos_c pos_t =
      let (s, run, draws) =
        compute_swap_step-Draws current target l rem rate z rated true pos_c pos_t fits in
      let same = compute_swap_step-eq-raydium current target l rem rate z rated fits pos_c pos_t in
      subst (StepOutcome current target l rem rate z) (sym (same ∙ ap (λ r. r >>= words_of) run))
        (words_of-StepOutcome s draws)

  pub step-Draws :
      rate < fee_rate_mul_value
      → 0 < current
      → 0 < target
      → {s : SwapStep} → compute_swap_step rem rate l current target z ≡ ok s
      → Draws current target l rem rate z s
  unfolding StepOutcome
  step-Draws rated pos_c pos_t run =
      subst (StepOutcome current target l rem rate z) run
        (compute_swap_step-StepOutcome rated pos_c pos_t)

to_u64-ok : (n : ℕ) {v : ℕ} → to_u64 n ≡ ok v → v ≤ max_u64
unfolding to_u64
to_u64-ok n h = ground arith

-- The output of any step that succeeds is a word.
pub compute_swap_step-word :
    (rem rate l current target : ℕ) (z : Bool) {s : SwapStep}
    → compute_swap_step rem rate l current target z ≡ ok s
    → s.amount_out ≤ max_u64
unfolding compute_swap_step
compute_swap_step-word rem rate l current target z h =
    let d = fixed_delta current target l z in
    let (q, _, h₁) = >>=-eq-ok (next_price current target l d (amount_calc rem rate) z) _ h in
    let fixed = if not (q == target) || ltb max_u64 d then fixed_delta current q l z else d in
    let (i, _, h₂) = >>=-eq-ok (to_u64 fixed) _ h₁ in
    let (o, word, h₃) = >>=-eq-ok (to_u64 (unfixed_delta current q l z)) _ h₂ in
    let (fee, _, h₄) = >>=-eq-ok (step_fee rem i fixed rate (q == target)) _ h₃ in
    subst (λ (s : SwapStep). s.amount_out ≤ max_u64) (ok-injective h₄)
      (to_u64-ok (unfixed_delta current q l z) word)
