-- ===== src/Quote/Raydium/LimitOrder/Fills.antt =====
-- quote/raydium/limit_order.go: a match uses up the input or the resting orders.
use mathlib.Core.Path.{subst}
use soldex.Base.{
  ℕ, ◌+◌, ◌-◌, ◌*◌, ◌≤◌, ◌≡◌, refl, sym, ap, ◌∙◌, ◌⊎◌, inl, inr, arith, Bool, true, false, not, ltb,
  ◌==◌, ok, amount_overflow, >>=-eq-ok, ok-injective, Bool-cases, ltb→le, ==→eq,
}
use soldex.Math.Common.{BigInt, nat}
use soldex.Math.Raydium.Liquidity.{ceil_quo}
use soldex.Math.Raydium.Step.{fee_rate_denominator}
use soldex.Math.Raydium.Tick.{price_from_sqrt_price, limit_order_output, limit_order_input}
use soldex.Quote.Raydium.State.{SwapState, to_u64, apply}
use soldex.Base.{fail_if-ok}
use soldex.Quote.Raydium.State.Books.{
  Books, Books-self, drawn, to_u64-ok, apply-Books, apply-ok, apply-net,
}
use soldex.Quote.Raydium.LimitOrder.{
  Fill, net_input, fee_on_fill, fill_orders, book_fee, book_fill, match_limit_orders,
}

-- A match at a tick with `unfilled` orders, which leaves `left` of them.
pub record Fills (s : SwapState) (unfilled : ℕ) (s' : SwapState) (left : ℕ) : Type 0 where
  pub books : Books s s'
  pub fewer : left ≤ unfilled
  pub ended : (left ≡ 0) ⊎ (s'.amount_remaining ≡ 0)

net_input-ok :
    (remaining rate : ℕ) (on_input : Bool) {p : ℕ × ℕ}
    → net_input remaining rate on_input ≡ ok p
    → drawn on_input p.0 p.1 ≡ remaining
unfolding net_input
net_input-ok remaining rate true {p} h =
    let (fee, e, h₁) = >>=-eq-ok (ceil_quo (remaining * rate) fee_rate_denominator) _ h in
    elim (Bool-cases (ltb remaining fee)) [
      | inl over ↦ absurd (cc (rw over at h₁))
      | inr within ↦
          let le = ltb→le _ _ within in
          subst (λ q. q.0 + q.1 ≡ remaining) (ok-injective (rw within at h₁)) (omega arith)
    ]
net_input-ok remaining rate false h =
    subst (λ q. q.0 + 0 ≡ remaining) (ok-injective h) (omega arith)

-- A fill is of at most the resting orders, and takes all of them or all of the input.
record IsFill (remaining resting : ℕ) (on_input : Bool) (f : Fill) : Type 0 where
  within : f.amount_out ≤ resting
  whole : (f.amount_out ≡ resting) ⊎ (drawn on_input f.amount_in f.fee ≡ remaining)

fill_orders-IsFill :
    (remaining resting price rate : ℕ) (z on_input : Bool) {f : Fill}
    → fill_orders remaining resting price rate z on_input ≡ ok f
    → IsFill remaining resting on_input f
unfolding fill_orders
fill_orders-IsFill remaining resting price rate z on_input {f} h =
    let (p, e₁, h₁) = >>=-eq-ok (net_input remaining rate on_input) _ h in
    let (out, e₂, h₂) = >>=-eq-ok (limit_order_output (p.0) price z) _ h₁ in
    elim (Bool-cases (ltb resting out)) [
      | inl scarce ↦
          let h₃ = rw scarce at h₂ in
          let (whole, e₄, h₄) = >>=-eq-ok (limit_order_input resting price (not z)) _ h₃ in
          let (fee, e₅, h₅) = >>=-eq-ok (fee_on_fill whole rate on_input) _ h₄ in
          subst (IsFill remaining resting on_input) (ok-injective h₅)
            (record { within = omega arith; whole = inl refl })
      | inr plenty ↦
          subst (IsFill remaining resting on_input) (ok-injective (rw plenty at h₂)) (record {
            within = ltb→le _ _ plenty;
            whole = inr (net_input-ok remaining rate on_input e₁);
          })
    ]

-- What the booking of a fill leaves of the input.
booked-ended :
    (s : SwapState) (resting : ℕ) (f : Fill) (rate : ℕ) (on_input : Bool) (b : BigInt × BigInt)
    {s' : SwapState}
    → IsFill s.amount_remaining resting on_input f
    → book_fee f rate on_input ≡ ok b
    → apply s (nat f.amount_in) b.0 b.1 on_input ≡ ok s'
    → (resting - f.amount_out ≡ 0) ⊎ (s'.amount_remaining ≡ 0)
unfolding book_fee
booked-ended s resting f rate true b {s'} good e h = elim (good.whole) [
  | inl all ↦ inl (omega arith)
  | inr used ↦
      let h₁ =
        subst (λ c. apply s (nat f.amount_in) c.0 c.1 true ≡ ok s') (sym (ok-injective e)) h in
      let (le, fits, same) = apply-ok s f.amount_in f.amount_out f.fee true h₁ in
      inr (ap (λ t. t.amount_remaining) (sym same) ∙ omega arith)
]
booked-ended s resting f rate false b {s'} good e h = elim (good.whole) [
  | inl all ↦ inl (omega arith)
  | inr used ↦ let (le, same) = apply-net s f.amount_in b.0 b.1 h in inr (omega arith)
]

book_fill-Fills :
    (s : SwapState) (unfilled : ℕ) (f : Fill) (rate : ℕ) (on_input : Bool) {r : SwapState × ℕ}
    → IsFill s.amount_remaining unfilled on_input f
    → book_fill s unfilled f rate on_input ≡ ok r
    → Fills s unfilled r.0 r.1
unfolding book_fill
book_fill-Fills s unfilled f rate on_input {r} good h =
    let (filled, e₁, h₁) = >>=-eq-ok (to_u64 (nat f.amount_out)) _ h in
    let (t, h₂) = fail_if-ok (ltb unfilled filled) amount_overflow _ h₁ in
    let (b, e₂, h₃) = >>=-eq-ok (book_fee f rate on_input) _ h₂ in
    let (s', e₃, h₄) = >>=-eq-ok (apply s (nat f.amount_in) (b.0) (b.1) on_input) _ h₃ in
    let (same, _) = to_u64-ok f.amount_out e₁ in
    let ended = booked-ended s unfilled f rate on_input b good e₂ e₃ in
    let Good : SwapState × ℕ → Type 0 = λ q. Fills s unfilled q.0 q.1 in
    subst Good (ok-injective h₄) (record {
      books = apply-Books s (nat f.amount_in) (b.0) (b.1) on_input e₃;
      fewer = omega arith;
      ended = subst (λ n. (unfilled - n ≡ 0) ⊎ (s'.amount_remaining ≡ 0)) (sym same) ended;
    })

-- A successful match never adds to the input and changes neither the price nor the liquidity; it
-- leaves no more orders than there were; and it leaves no order or none of the input, so that a quote
-- that is not at its end can cross the tick.
pub match_limit_orders-Fills :
    (s : SwapState) (unfilled tick_price rate : ℕ) (z on_input : Bool) {r : SwapState × ℕ}
    → match_limit_orders s unfilled tick_price rate z on_input ≡ ok r
    → Fills s unfilled r.0 r.1
unfolding match_limit_orders
match_limit_orders-Fills s unfilled tick_price rate z on_input {r} h =
    let Good : SwapState × ℕ → Type 0 = λ q. Fills s unfilled q.0 q.1 in
    elim (Bool-cases (s.amount_remaining == 0)) [
      | inl used ↦
          subst Good (ok-injective (rw used at h))
            (record { books = Books-self s; fewer = omega arith; ended = inr (==→eq _ _ used) })
      | inr input ↦ elim (Bool-cases (unfilled == 0)) [
        | inl no_orders ↦ subst Good (ok-injective (rw (input, no_orders) at h)) (record {
          books = Books-self s;
          fewer = omega arith;
          ended = inl (==→eq _ _ no_orders);
        })
        | inr orders ↦
            let price = price_from_sqrt_price tick_price (not z) in
            let (f, e, h₁) =
              >>=-eq-ok (fill_orders s.amount_remaining unfilled price rate z on_input) _
                (rw (input, orders) at h) in
            book_fill-Fills s unfilled f rate on_input
              (fill_orders-IsFill s.amount_remaining unfilled price rate z on_input e) h₁
      ]
    ]
