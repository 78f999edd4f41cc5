-- ===== src/Quote/Orca/Swap/Rounds.antt =====
-- quote/orca/swap_quote.go: what one round toward a boundary tick does.
use soldex.Base.{
  ℕ, ◌+◌, ◌-◌, ◌≤◌, ◌≡◌, ◌≢◌, refl, sym, ap, ◌∙◌, inl, inr, arith, Bool, true, false, ◌||◌, ltb,
  ◌==◌, if◌then◌else◌, ok, amount_overflow, >>=-eq-ok, ok-injective, Bool-cases, ==→eq,
}
use mathlib.Core.Path.{subst}
use soldex.Base.{fail_if-ok}
use soldex.Base.Int.{ℤ, pos, ◌-ℤ◌, wrap_i32}
use soldex.Base.Words.{max_u64}
use soldex.Math.Orca.Tick.{tick_index_from_sqrt_price}
use soldex.Quote.Orca.FeeManager.{
  FeeRateManager, update_accumulator, total_fee_rate, bounded_sqrt_price_target, advance_tick_group,
  advance_tick_group_after_skip,
}
use soldex.Quote.Orca.Step.{SwapStep, compute_swap_step}
use soldex.Quote.Orca.Step.Draws.{compute_swap_step-word}
use soldex.Quote.Orca.Swap.{Walk, TickBoundary, book, cross_if, land, advance, swap_round}

-- What a step books.
pub record Books (w w' : Walk) (step : SwapStep) : Type 0 where
  pub fits : step.amount_in + step.fee_amount ≤ w.amount_remaining
  pub remaining : w'.amount_remaining + (step.amount_in + step.fee_amount) ≡ w.amount_remaining
  pub out : w'.amount_out ≡ w.amount_out + step.amount_out
  pub word : w'.amount_out ≤ max_u64

pub book-ok :
    (w : Walk) (step : SwapStep) {w' : Walk}
    → step.amount_out ≤ max_u64
    → book w step ≡ ok w'
    → Books w w' step
      × (w' ≡ record w {
        amount_remaining = w.amount_remaining - (step.amount_in + step.fee_amount);
        amount_out = w.amount_out + step.amount_out;
      })
unfolding book
book-ok w step word h =
    let (enough, h₁) =
      fail_if-ok
        (ltb w.amount_remaining step.amount_in
          || ltb (w.amount_remaining - step.amount_in) step.fee_amount)
        amount_overflow _ h in
    let (room, h₂) =
      fail_if-ok (ltb (max_u64 - step.amount_out) w.amount_out) amount_overflow _ h₁ in
    let same = ok-injective h₂ in
    let fits : step.amount_in + step.fee_amount ≤ w.amount_remaining = ground arith in
    let small : w.amount_out + step.amount_out ≤ max_u64 = ground arith in
    (
      record {
        fits = fits;
        remaining =
            ap (λ (v : Walk). v.amount_remaining + (step.amount_in + step.fee_amount)) (sym same)
            ∙ omega arith;
        out = ap (λ v. v.amount_out) (sym same);
        word = subst (λ (v : Walk). v.amount_out ≤ max_u64) same small;
      },
      sym same,
    )

-- A static manager is never changed.
pub accumulate_static : (m : FeeRateManager) → m.adaptive ≡ false → update_accumulator m ≡ m
unfolding update_accumulator
accumulate_static m h = rw h refl

advance_static :
    (m : FeeRateManager) (skip : Bool) (next tick_price : ℕ) (tick : ℤ)
    → m.adaptive ≡ false
    → advance m skip next tick_price tick ≡ ok m
unfolding advance advance_tick_group_after_skip advance_tick_group
advance_static m true next tick_price tick h = rw h refl
advance_static m false next tick_price tick h = rw h refl

-- Where a step lands: on the boundary tick, where it was, or elsewhere.
pub record Lands (w w' : Walk) (b : TickBoundary) (tick_price next : ℕ) (z : Bool) : Type 0 where
  pub crossed :
      next ≡ tick_price
      → (cross_if b w.liquidity z ≡ ok w'.liquidity)
        × (w'.curr_tick ≡ (if z then wrap_i32 (b.tick_index -ℤ pos 1) else b.tick_index))
  pub moved :
      next ≢ tick_price
      → (w'.liquidity ≡ w.liquidity)
        × (w'.curr_tick
            ≡ (if next == w.sqrt_price then w.curr_tick else tick_index_from_sqrt_price next))
  pub remaining : w'.amount_remaining ≡ w.amount_remaining
  pub out : w'.amount_out ≡ w.amount_out

land-Lands :
    (w : Walk) (b : TickBoundary) (tick_price next : ℕ) (z : Bool) {w' : Walk}
    → land w b tick_price next z ≡ ok w'
    → Lands w w' b tick_price next z
unfolding land
land-Lands w b tick_price next z {w'} h = elim (Bool-cases (next == tick_price)) [
  | inl there ↦
      let (l, e, h₁) = >>=-eq-ok (cross_if b w.liquidity z) _ (rw there at h) in
      let same = sym (ok-injective h₁) in
      record {
        crossed =
            λ _. (e ∙ ap (λ (v : Walk). ok v.liquidity) (sym same), ap (λ v. v.curr_tick) same);
        moved = λ off. absurd (off (==→eq _ _ there));
        remaining = ap (λ v. v.amount_remaining) same;
        out = ap (λ v. v.amount_out) same;
      }
  | inr off ↦
      let apart : next ≢ tick_price = λ e. ground arith in
      elim (Bool-cases (next == w.sqrt_price)) [
        | inl stays ↦
            let same = sym (ok-injective (rw (off, stays) at h)) in
            record {
              crossed = λ e. absurd (apart e);
              moved = λ _. (ap (λ v. v.liquidity) same, ap (λ v. v.curr_tick) same ∙ rw stays refl);
              remaining = ap (λ v. v.amount_remaining) same;
              out = ap (λ v. v.amount_out) same;
            }
        | inr goes ↦
            let same = sym (ok-injective (rw (off, goes) at h)) in
            record {
              crossed = λ e. absurd (apart e);
              moved = λ _. (ap (λ v. v.liquidity) same, ap (λ v. v.curr_tick) same ∙ rw goes refl);
              remaining = ap (λ v. v.amount_remaining) same;
              out = ap (λ v. v.amount_out) same;
            }
      ]
]

-- A round: its step, booked and landed.
pub record RoundOf (w w' : Walk) (b : TickBoundary) (tick_price target : ℕ) (z : Bool)
    : Type 0 where
  pub step : SwapStep
  pub booked : Walk
  pub step_eq :
      compute_swap_step w.amount_remaining
        (total_fee_rate (update_accumulator w.mgr))
        w.liquidity
        w.sqrt_price
        (bounded_sqrt_price_target (update_accumulator w.mgr) target w.liquidity).0
        z
      ≡ ok step
  pub books : Books w booked step
  pub lands : Lands booked w' b tick_price step.next_price z
  pub price : w'.sqrt_price ≡ step.next_price
  pub from_price : booked.sqrt_price ≡ w.sqrt_price
  pub from_liquidity : booked.liquidity ≡ w.liquidity
  pub static : w.mgr.adaptive ≡ false → w'.mgr ≡ w.mgr

pub swap_round-RoundOf :
    (b : TickBoundary) (tick_price target : ℕ) (z : Bool) (w : Walk) {w' : Walk}
    → swap_round b tick_price target z w ≡ ok w'
    → RoundOf w w' b tick_price target z
unfolding swap_round
swap_round-RoundOf b tick_price target z w {w'} h =
    let m = update_accumulator w.mgr in
    let bounded = bounded_sqrt_price_target m target w.liquidity in
    let (step, run, h₁) =
      >>=-eq-ok
        (compute_swap_step w.amount_remaining (total_fee_rate m) w.liquidity w.sqrt_price bounded.0
          z)
        _ h in
    let (booked, booking, h₂) = >>=-eq-ok (book w step) _ h₁ in
    let (landed, landing, h₃) = >>=-eq-ok (land booked b tick_price step.next_price z) _ h₂ in
    let (m', moved, h₄) =
      >>=-eq-ok (advance m bounded.1 step.next_price tick_price b.tick_index) _ h₃ in
    let same = sym (ok-injective h₄) in
    let word =
      compute_swap_step-word w.amount_remaining (total_fee_rate m) w.liquidity w.sqrt_price
        bounded.0 z run in
    let (books, booked_eq) = book-ok w step word booking in
    let lands = land-Lands booked b tick_price step.next_price z landing in
    let w₁ = record landed { mgr = m'; sqrt_price = step.next_price } in
    let at_end : RoundOf w w₁ b tick_price target z = record {
      step = step;
      booked = booked;
      step_eq = run;
      books = books;
      lands = record {
        crossed = lands.crossed;
        moved = lands.moved;
        remaining = lands.remaining;
        out = lands.out;
      };
      price = refl;
      from_price = ap (λ v. v.sqrt_price) booked_eq;
      from_liquidity = ap (λ v. v.liquidity) booked_eq;
      static = λ plain.
          let idle = accumulate_static w.mgr plain in
          let still : m.adaptive ≡ false = ap (λ v. v.adaptive) idle ∙ plain in
          let kept =
            sym moved ∙ advance_static m bounded.1 step.next_price tick_price b.tick_index still in
          ok-injective kept ∙ idle;
    } in
    subst (λ v. RoundOf w v b tick_price target z) (sym same) at_end
