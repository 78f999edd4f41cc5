-- ===== src/Quote/Raydium/Swap/OneRound.antt =====
-- quote/raydium/swap_quote.go: `stepToBoundary` of a pool without a dynamic fee.
use mathlib.Core.Path.{subst}
use soldex.Base.{
  ℕ, suc, ◌+◌, ◌≤◌, ◌<◌, ◌≡◌, refl, sym, ap, ◌∙◌, ◌⊎◌, inl, inr, arith, Bool, true, none, some,
  ◌==◌, if◌then◌else◌, ok, >>=-eq-ok, ok-injective, Bool-cases,
}
use soldex.Base.{Result-cases}
use soldex.Base.Words.{u64_mod}
use soldex.Math.Common.{nat}
use soldex.Math.Raydium.Step.{SwapStep, fee_rate_denominator}
use soldex.Math.Raydium.Step.Draws.{compute_swap_step-Draws}
use soldex.Quote.Raydium.State.{SwapState, TickBoundary, apply}
use soldex.Quote.Raydium.State.Books.{apply-ok}
use soldex.Quote.Raydium.DynamicFee.{
  Bound, update_volatility_accumulator, charged_rate, total_fee_rate, runs_to_target, is_capped,
  spacing_bounded_price,
}
use soldex.Quote.Raydium.Swap.{
  Crossing, move_price, boundary_round, after_round, boundary_loop, is_done,
}
use soldex.Quote.Raydium.Swap.Rounds.{update_volatility_accumulator-Keeps, boundary_round-RoundOf}

-- The move is to the target, or draws all of the input.
AtEnd : ℕ → ℕ × SwapState → Type 0
AtEnd target r = (r.0 ≡ target) ⊎ (r.1.amount_remaining ≡ 0)

-- A step that is booked in full.
booked_step-AtEnd :
    (s s' : SwapState) (st : SwapStep) (i o fee target : ℕ) (on_input : Bool)
    → st.amount_in ≡ nat i
    → st.amount_out ≡ nat o
    → st.fee_amount ≡ nat fee
    → (st.sqrt_price_next ≡ target) ⊎ (i + (if on_input then fee else 0) ≡ s.amount_remaining)
    → apply s st.amount_in st.amount_out st.fee_amount on_input ≡ ok s'
    → AtEnd target (st.sqrt_price_next, s')
unfolding AtEnd
booked_step-AtEnd s s' st i o fee target on_input e₁ e₂ e₃ (inl there) h = inl there
booked_step-AtEnd s s' st i o fee target on_input e₁ e₂ e₃ (inr spent) h =
    let (_, _, same) = apply-ok s i o fee on_input (rw (e₁, e₂, e₃) at h) in
    inr (ap (λ t. t.amount_remaining) (sym same) ∙ omega arith)

move_price-AtEnd :
    (s : SwapState) (target : ℕ) (z on_input : Bool) {r : ℕ × SwapState}
    → s.base_fee_rate < fee_rate_denominator
    → 0 < s.sqrt_price
    → 0 < target
    → s.amount_remaining < u64_mod
    → move_price s target s.base_fee_rate z on_input ≡ ok r
    → AtEnd target r
unfolding move_price AtEnd
move_price-AtEnd s target z on_input rated pos_s pos_t fits h =
    elim (Bool-cases (s.sqrt_price == target)) [
      | inl there ↦ subst (AtEnd target) (ok-injective (rw there at h)) (inl refl)
      | inr away ↦
          let (st, run, draws) =
            compute_swap_step-Draws s.sqrt_price target s.liquidity s.amount_remaining
              s.base_fee_rate z rated on_input pos_s pos_t fits in
          let (s', booking, h₁) =
            >>=-eq-ok (apply s st.amount_in st.amount_out st.fee_amount on_input) _
              (rw (away, run) at h) in
          subst (AtEnd target) (ok-injective h₁) (
            booked_step-AtEnd s s' st draws.amount_in draws.amount_out draws.fee target on_input
              draws.in_eq draws.out_eq draws.fee_eq draws.ends booking)
    ]

plain_rate :
    (s : SwapState) {rate : ℕ} → s.dyn ≡ none → total_fee_rate s ≡ ok rate → s.base_fee_rate ≡ rate
unfolding total_fee_rate charged_rate
plain_rate s plain h = ok-injective (rw plain at h)

plain_bound :
    (s : SwapState) (target : ℕ) (z : Bool) {bound : Bound}
    → s.dyn ≡ none
    → spacing_bounded_price s target z ≡ ok bound
    → target ≡ bound.price
unfolding spacing_bounded_price runs_to_target is_capped
plain_bound s target z plain h = ap (λ b. b.price) (ok-injective (rw plain at h))

is_done-of_AtEnd :
    (target : ℕ) (c : Crossing) (r : ℕ × SwapState)
    → AtEnd target r
    → c.state.amount_remaining ≤ r.1.amount_remaining
    → c.state.sqrt_price ≡ r.0
    → is_done c target ≡ true
unfolding AtEnd is_done
is_done-of_AtEnd target c r (inl there) le price = ground arith
is_done-of_AtEnd target c r (inr spent) le price = ground arith

round_done :
    (b : TickBoundary) (tick_price target : ℕ) (z on_input : Bool) (c : Crossing) {c' : Crossing}
    → c.state.dyn ≡ none
    → c.state.base_fee_rate < fee_rate_denominator
    → 0 < c.state.sqrt_price
    → 0 < target
    → c.state.amount_remaining < u64_mod
    → boundary_round b tick_price target z on_input c ≡ ok c'
    → is_done c' target ≡ true
unfolding update_volatility_accumulator
round_done b tick_price target z on_input c {c'} plain rated pos_s pos_t fits h =
    let r = boundary_round-RoundOf b tick_price target z on_input c h in
    let s = update_volatility_accumulator c.state in
    let no_dyn = (update_volatility_accumulator-Keeps c.state).no_dyn plain in
    let rate_eq = plain_rate s no_dyn r.rate_eq in
    let price_eq = plain_bound s target z no_dyn r.bound_eq in
    let run : move_price s target s.base_fee_rate z on_input ≡ ok r.moved =
      ap (λ n. move_price s n s.base_fee_rate z on_input) price_eq
      ∙ ap (λ n. move_price s r.bound.price n z on_input) rate_eq
      ∙ r.move_eq in
    is_done-of_AtEnd target c' r.moved
      (move_price-AtEnd s target z on_input rated pos_s pos_t fits run) r.keeps.remaining r.price

-- For a pool without a dynamic fee, at a base rate below 100%, from and to prices that are not zero and
-- with a uint64 left to swap, the loop of `stepToBoundary` ends after its first round, with that
-- round's result or its error.
pub boundary_loop-eq-boundary_round :
    (fuel : ℕ) (b : TickBoundary) (tick_price target : ℕ) (z on_input : Bool) (c : Crossing)
    → c.state.dyn ≡ none
    → c.state.base_fee_rate < fee_rate_denominator
    → 0 < c.state.sqrt_price
    → 0 < target
    → c.state.amount_remaining < u64_mod
    → boundary_loop (suc fuel) b tick_price target z on_input c
      ≡ some (boundary_round b tick_price target z on_input c)
unfolding boundary_loop after_round
boundary_loop-eq-boundary_round fuel b tick_price target z on_input c plain rated pos_s pos_t fits =
    elim (Result-cases (boundary_round b tick_price target z on_input c)) [
      | inl (c', run) ↦
          rw
            (
              run,
              after_round,
              round_done b tick_price target z on_input c plain rated pos_s pos_t fits run,
            )
            refl
      | inr (e, run) ↦ rw run refl
    ]
