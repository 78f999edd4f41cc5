-- ===== src/Quote/Orca/Swap/OneRound.antt =====
-- quote/orca/swap_quote.go: the rounds toward a boundary tick in a pool without an adaptive fee.
use soldex.Base.{
  ℕ, suc, ◌<◌, ◌≡◌, refl, sym, ap, ◌∙◌, ◌⊎◌, inl, inr, arith, Bool, true, false, some, ok,
}
use soldex.Base.{Result-cases}
use soldex.Base.Words.{u64_mod}
use soldex.Quote.Orca.FeeManager.{
  FeeRateManager, update_accumulator, total_fee_rate, bounded_sqrt_price_target,
}
use soldex.Quote.Orca.Step.{compute_swap_step, fee_rate_mul_value}
use soldex.Quote.Orca.Step.Draws.{step-Draws}
use soldex.Quote.Orca.Swap.{Walk, TickBoundary, swap_round, is_done, after_round, swap_rounds}
use soldex.Quote.Orca.Swap.Rounds.{accumulate_static, swap_round-RoundOf}

-- A walk at a static rate below 100%, from a price that is not zero, with a uint64 left to swap.
pub record IsPlain (w : Walk) : Type 0 where
  pub static : w.mgr.adaptive ≡ false
  pub rated : w.mgr.static_fee_rate < fee_rate_mul_value
  pub positive : 0 < w.sqrt_price
  pub word : w.amount_remaining < u64_mod

static_rate : (m : FeeRateManager) → m.adaptive ≡ false → total_fee_rate m ≡ m.static_fee_rate
unfolding total_fee_rate
static_rate m h = rw h refl

static_target :
    (m : FeeRateManager) (target liquidity : ℕ)
    → m.adaptive ≡ false
    → bounded_sqrt_price_target m target liquidity ≡ (target, false)
unfolding bounded_sqrt_price_target
static_target m target liquidity h = rw h refl

-- Of a round in a plain pool: the price is at the target or the input is used up, and it stays plain.
pub swap_round-IsPlain :
    (b : TickBoundary) (tick_price target : ℕ) (z : Bool) (w : Walk) {w' : Walk}
    → IsPlain w
    → 0 < target
    → swap_round b tick_price target z w ≡ ok w'
    → IsPlain w' × ((w'.sqrt_price ≡ target) ⊎ (w'.amount_remaining ≡ 0))
swap_round-IsPlain b tick_price target z w {w'} h pos_t run =
    let r = swap_round-RoundOf b tick_price target z w run in
    let idle = accumulate_static w.mgr h.static in
    let rate = ap (λ m. total_fee_rate m) idle ∙ static_rate w.mgr h.static in
    let aim =
      ap (λ m. (bounded_sqrt_price_target m target w.liquidity).0) idle
      ∙ ap (λ p. p.0) (static_target w.mgr target w.liquidity h.static) in
    let stepped : compute_swap_step w.amount_remaining w.mgr.static_fee_rate w.liquidity
          w.sqrt_price target z
        ≡ ok r.step =
      ap (λ n. compute_swap_step w.amount_remaining n w.liquidity w.sqrt_price target z) (sym rate)
      ∙ ap
          (λ n.
            compute_swap_step w.amount_remaining (total_fee_rate (update_accumulator w.mgr))
              w.liquidity w.sqrt_price n z)
          (sym aim)
      ∙ r.step_eq in
    let draws =
      step-Draws w.sqrt_price target w.liquidity w.amount_remaining w.mgr.static_fee_rate z h.word
        h.rated h.positive pos_t stepped in
    let same = r.static h.static in
    let left = r.books.remaining in
    (
      record {
        static = ap (λ m. m.adaptive) same ∙ h.static;
        rated = omega (arith, h.rated, ap (λ m. m.static_fee_rate) same);
        positive = omega (arith, draws.positive, r.price);
        word = omega (arith, h.word, left, r.lands.remaining);
      },
      elim draws.ends [
        | inl there ↦ inl (r.price ∙ there)
        | inr spent ↦ inr (omega (arith, spent, left, r.lands.remaining))
      ],
    )

done_of :
    (w : Walk) (target : ℕ)
    → (w.sqrt_price ≡ target) ⊎ (w.amount_remaining ≡ 0)
    → is_done w target ≡ true
unfolding is_done
done_of w target (inl there) = ground arith
done_of w target (inr spent) = ground arith

-- In a pool without an adaptive fee, at a rate below 100%, from and to prices that are not zero and with
-- a uint64 left to swap, the loop toward a boundary tick ends after its first round, with that round's
-- result or its error.
pub swap_rounds-eq-swap_round :
    (fuel : ℕ) (b : TickBoundary) (tick_price target : ℕ) (z : Bool) (w : Walk)
    → IsPlain w
    → 0 < target
    → swap_rounds (suc fuel) b tick_price target z w ≡ some (swap_round b tick_price target z w)
unfolding swap_rounds after_round
swap_rounds-eq-swap_round fuel b tick_price target z w h pos_t =
    elim (Result-cases (swap_round b tick_price target z w)) [
      | inl (w', run) ↦
          let (_, ends) = swap_round-IsPlain b tick_price target z w h pos_t run in
          rw (run, after_round, done_of w' target ends) refl
      | inr (e, run) ↦ rw run refl
    ]
