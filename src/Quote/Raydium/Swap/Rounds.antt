-- ===== src/Quote/Raydium/Swap/Rounds.antt =====
-- quote/raydium/swap_quote.go: what one round of `stepToBoundary` is made of.
use mathlib.Core.Path.{subst}
use soldex.Base.{
  ℕ, ◌≤◌, ◌≡◌, refl, ◌∙◌, inl, inr, arith, Bool, true, false, ◌&&◌, none, ◌==◌, ok, >>=-eq-ok,
  ok-injective, Bool-cases,
}
use soldex.Base.Int.{ℤ}
use soldex.Math.Raydium.Step.{compute_swap_step}
use soldex.Quote.Raydium.State.{SwapState, TickBoundary, apply}
use soldex.Quote.Raydium.State.Books.{Books, apply-Books}
use soldex.Quote.Raydium.DynamicFee.{
  Bound, map_dyn, update_volatility_accumulator, total_fee_rate, landed_index,
  accumulate_unless_capped, is_capped, is_none, move_index, recompute_index, spacing_bounded_price,
  update_dynamic_fee_index,
}
use soldex.Quote.Raydium.LimitOrder.{match_limit_orders}
use soldex.Quote.Raydium.LimitOrder.Fills.{match_limit_orders-Fills}
use soldex.Quote.Raydium.Swap.{
  Crossing, move_price, cross_if, reach_boundary, landed_tick, stop_short, settle_price,
  boundary_round,
}

-- No step adds to the input, starts a dynamic fee or changes the base rate.
pub record Keeps (s s' : SwapState) : Type 0 where
  pub remaining : s'.amount_remaining ≤ s.amount_remaining
  pub no_dyn : s.dyn ≡ none → s'.dyn ≡ none
  pub rate : s'.base_fee_rate ≡ s.base_fee_rate

pub Keeps-self : (s : SwapState) → Keeps s s
Keeps-self s = record { remaining = omega arith; no_dyn = λ h. h; rate = refl }

pub Keeps-trans : (s t u : SwapState) → Keeps s t → Keeps t u → Keeps s u
Keeps-trans s t u h k = record {
  remaining = omega (arith, h.remaining, k.remaining);
  no_dyn = λ e. k.no_dyn (h.no_dyn e);
  rate = k.rate ∙ h.rate;
}

pub Books-Keeps : (s s' : SwapState) → Books s s' → Keeps s s'
Books-Keeps s s' b = record {
  remaining = b.remaining;
  no_dyn = λ e. b.same_dyn ∙ e;
  rate = b.same_rate;
}

pub update_volatility_accumulator-Keeps :
    (s : SwapState) → Keeps s (update_volatility_accumulator s)
unfolding update_volatility_accumulator map_dyn
update_volatility_accumulator-Keeps s = record {
  remaining = omega arith;
  no_dyn = λ e. rw e refl;
  rate = refl;
}

-- The update of the index changes no amount and no price.
SameAmounts : SwapState → SwapState → Type 0
SameAmounts s s' = Keeps s s' × (s'.sqrt_price ≡ s.sqrt_price)

accumulate_unless_capped-SameAmounts : (s : SwapState) → SameAmounts s (accumulate_unless_capped s)
unfolding SameAmounts accumulate_unless_capped update_volatility_accumulator
accumulate_unless_capped-SameAmounts s = elim (Bool-cases (is_capped s.dyn)) [
  | inl capped ↦ rw capped (Keeps-self s, refl)
  | inr rising ↦ rw rising (update_volatility_accumulator-Keeps s, refl)
]

recompute_index-SameAmounts :
    (s : SwapState) (z skipped : Bool) (tick_price : ℕ) (tick : ℤ) {s' : SwapState}
    → recompute_index s z skipped tick_price tick ≡ ok s'
    → SameAmounts s s'
unfolding SameAmounts recompute_index
recompute_index-SameAmounts s z false tick_price tick h =
    subst (SameAmounts s) (ok-injective h) (Keeps-self s, refl)
recompute_index-SameAmounts s z true tick_price tick h =
    let (index, e, h₁) = >>=-eq-ok (landed_index s z tick_price tick) _ h in
    let s₁ = record s { tick_spacing_idx = index } in
    let (keeps, price) = accumulate_unless_capped-SameAmounts s₁ in
    subst (SameAmounts s) (ok-injective h₁)
      (record { remaining = keeps.remaining; no_dyn = keeps.no_dyn; rate = keeps.rate }, price)

update_dynamic_fee_index-SameAmounts :
    (s : SwapState) (z skipped : Bool) (tick_price : ℕ) (tick : ℤ) {s' : SwapState}
    → update_dynamic_fee_index s z skipped tick_price tick ≡ ok s'
    → SameAmounts s s'
unfolding SameAmounts update_dynamic_fee_index move_index
update_dynamic_fee_index-SameAmounts s z skipped tick_price tick h =
    elim (Bool-cases (is_none s.dyn)) [
      | inl never ↦ subst (SameAmounts s) (ok-injective (rw never at h)) (Keeps-self s, refl)
      | inr dynamic ↦
          let (t, e, h₁) =
            >>=-eq-ok (recompute_index s z skipped tick_price tick) _ (rw dynamic at h) in
          let (keeps, price) = recompute_index-SameAmounts s z skipped tick_price tick e in
          subst (SameAmounts s) (ok-injective h₁) (
            record { remaining = keeps.remaining; no_dyn = keeps.no_dyn; rate = keeps.rate },
            price,
          )
    ]

reach_boundary-Keeps :
    (b : TickBoundary) (tick_price rate : ℕ) (z on_input : Bool) (c : Crossing) {c' : Crossing}
    → reach_boundary b tick_price rate z on_input c ≡ ok c'
    → Keeps c.state c'.state
unfolding reach_boundary
reach_boundary-Keeps b tick_price rate z on_input c h =
    let (r, e₁, h₁) =
      >>=-eq-ok (match_limit_orders c.state c.unfilled tick_price rate z on_input) _ h in
    let (l, e₂, h₂) = >>=-eq-ok (cross_if (b.initialized && r.1 == 0) b c.liquidity_next z) _ h₁ in
    let fills = match_limit_orders-Fills c.state c.unfilled tick_price rate z on_input e₁ in
    let keeps = Books-Keeps c.state (r.0) fills.books in
    let Good : Crossing → Type 0 = λ d. Keeps c.state d.state in
    subst Good (ok-injective h₂)
      (record { remaining = keeps.remaining; no_dyn = keeps.no_dyn; rate = keeps.rate })

stop_short-Keeps :
    (next : ℕ) (bound : Bound) (c : Crossing) {c' : Crossing}
    → stop_short next bound c ≡ ok c'
    → Keeps c.state c'.state
unfolding stop_short
stop_short-Keeps next bound c h = elim (Bool-cases (c.state.sqrt_price == next)) [
  | inl same ↦
      let Good : Crossing → Type 0 = λ d. Keeps c.state d.state in
      subst Good (ok-injective (rw same at h)) (Keeps-self c.state)
  | inr other ↦
      let Good : Crossing → Type 0 = λ d. Keeps c.state d.state in
      let (tick, e, h₁) =
        >>=-eq-ok (landed_tick next bound.price bound.bounded_tick) _ (rw other at h) in
      subst Good (ok-injective h₁)
        (record { remaining = omega arith; no_dyn = λ k. k; rate = refl })
]

settle_price-Keeps :
    (b : TickBoundary) (tick_price rate next : ℕ) (bound : Bound) (z on_input : Bool) (c : Crossing)
    {c' : Crossing}
    → settle_price b tick_price rate next bound z on_input c ≡ ok c'
    → Keeps c.state c'.state
unfolding settle_price
settle_price-Keeps b tick_price rate next bound z on_input c h =
    elim (Bool-cases (tick_price == next)) [
      | inl reached ↦ reach_boundary-Keeps b tick_price rate z on_input c (rw reached at h)
      | inr short ↦ stop_short-Keeps next bound c (rw short at h)
    ]

-- The parts of a round from `c` to `c'`.
pub record RoundOf (target : ℕ) (z on_input : Bool) (c c' : Crossing) : Type 0 where
  pub rate : ℕ
  pub bound : Bound
  pub moved : ℕ × SwapState
  pub rate_eq : total_fee_rate (update_volatility_accumulator c.state) ≡ ok rate
  pub bound_eq : spacing_bounded_price (update_volatility_accumulator c.state) target z ≡ ok bound
  pub move_eq :
      move_price (update_volatility_accumulator c.state) bound.price rate z on_input ≡ ok moved
  pub keeps : Keeps moved.1 c'.state
  pub price : c'.state.sqrt_price ≡ moved.0

pub boundary_round-RoundOf :
    (b : TickBoundary) (tick_price target : ℕ) (z on_input : Bool) (c : Crossing) {c' : Crossing}
    → boundary_round b tick_price target z on_input c ≡ ok c'
    → RoundOf target z on_input c c'
unfolding boundary_round SameAmounts
boundary_round-RoundOf b tick_price target z on_input c h =
    let s = update_volatility_accumulator c.state in
    let (rate, e₁, h₁) = >>=-eq-ok (total_fee_rate s) _ h in
    let (bound, e₂, h₂) = >>=-eq-ok (spacing_bounded_price s target z) _ h₁ in
    let (moved, e₃, h₃) = >>=-eq-ok (move_price s bound.price rate z on_input) _ h₂ in
    let (c₁, e₄, h₄) =
      >>=-eq-ok
        (settle_price b tick_price rate moved.0 bound z on_input (record c { state = moved.1 })) _
        h₃ in
    let s₁ : SwapState = record (c₁.state) { sqrt_price = moved.0 } in
    let (s₂, e₅, h₅) =
      >>=-eq-ok (update_dynamic_fee_index s₁ z bound.skipped tick_price b.tick_index) _ h₄ in
    let k =
      settle_price-Keeps b tick_price rate moved.0 bound z on_input (record c { state = moved.1 })
        e₄ in
    let (k₁, price) =
      update_dynamic_fee_index-SameAmounts s₁ z bound.skipped tick_price b.tick_index e₅ in
    let k₂ : Keeps moved.1 s₁ = record {
      remaining = k.remaining;
      no_dyn = k.no_dyn;
      rate = k.rate;
    } in
    subst (RoundOf target z on_input c) (ok-injective h₅) (record {
      rate = rate;
      bound = bound;
      moved = moved;
      rate_eq = e₁;
      bound_eq = e₂;
      move_eq = e₃;
      keeps = Keeps-trans moved.1 s₁ s₂ k₂ k₁;
      price = price;
    })

pub move_price-Keeps :
    (s : SwapState) (bounded rate : ℕ) (z on_input : Bool) {r : ℕ × SwapState}
    → move_price s bounded rate z on_input ≡ ok r
    → Keeps s r.1
unfolding move_price
move_price-Keeps s bounded rate z on_input {r} h = elim (Bool-cases (s.sqrt_price == bounded)) [
  | inl there ↦
      let Good : ℕ × SwapState → Type 0 = λ q. Keeps s q.1 in
      subst Good (ok-injective (rw there at h)) (Keeps-self s)
  | inr away ↦
      let Good : ℕ × SwapState → Type 0 = λ q. Keeps s q.1 in
      let (st, e₁, h₁) =
        >>=-eq-ok
          (compute_swap_step s.sqrt_price bounded s.liquidity s.amount_remaining rate z on_input) _
          (rw away at h) in
      let (s', e₂, h₂) =
        >>=-eq-ok (apply s st.amount_in st.amount_out st.fee_amount on_input) _ h₁ in
      subst Good (ok-injective h₂)
        (Books-Keeps s s' (apply-Books s st.amount_in st.amount_out st.fee_amount on_input e₂))
]
