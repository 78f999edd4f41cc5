-- ===== src/Quote/Raydium/Swap/Exits.antt =====
-- quote/raydium/swap_quote.go: where the walk of a quote ends, and what it reports.
use mathlib.Core.Path.{subst}
use soldex.Base.{
  ℕ, zero, suc, ◌+◌, ◌/◌, ◌%◌, ◌^◌, ◌≡◌, refl, sym, ap, ◌∙◌, ◌⊎◌, inl, inr, arith, Bool, true,
  Option, none, some, ◌==◌, Result, ok, err, swap_disabled, >>=-eq-ok, ok-injective, Bool-cases,
  Option-cases, ==→eq,
}
use soldex.Base.{Result-cases, some-injective, fail_if-ok, map-some}
use soldex.Quote.Raydium.State.{
  SwapPool, SwapState, TickBoundary, TickProvider, is_fee_on_input, clamp_target,
}
use soldex.Quote.Raydium.State.{enabled}
use soldex.Quote.Raydium.DynamicFee.{
  update_reference, tick_spacing_index_from_tick, update_volatility_accumulator,
}
use soldex.Math.Raydium.Tick.{sqrt_price_from_tick}
use soldex.Quote.Raydium.Swap.{
  QuoteResult, Crossing, boundary_round, after_round, boundary_loop, is_done, finish_crossing,
  step_to_price, step_to_boundary, price_limit, after_boundary, visit_boundary, is_finished,
  walk_ticks, start_state, new_swap_state, open_pool, report, quote_exact_in_detailed,
}
use soldex.Quote.Raydium.Swap.Rounds.{
  Keeps, Keeps-self, Keeps-trans, update_volatility_accumulator-Keeps, boundary_round-RoundOf,
  move_price-Keeps,
}

boundary_round-Keeps :
    (b : TickBoundary) (tick_price target : ℕ) (z on_input : Bool) (c : Crossing) {c' : Crossing}
    → boundary_round b tick_price target z on_input c ≡ ok c'
    → Keeps c.state c'.state
boundary_round-Keeps b tick_price target z on_input c {c'} h =
    let r = boundary_round-RoundOf b tick_price target z on_input c h in
    let s = update_volatility_accumulator c.state in
    Keeps-trans c.state s c'.state (update_volatility_accumulator-Keeps c.state) (
      Keeps-trans s r.moved.1 c'.state
        (move_price-Keeps s r.bound.price r.rate z on_input r.move_eq) r.keeps)

boundary_loop-Keeps :
    (fuel : ℕ) (b : TickBoundary) (tick_price target : ℕ) (z on_input : Bool) (c : Crossing)
    {c' : Crossing}
    → boundary_loop fuel b tick_price target z on_input c ≡ some (ok c')
    → Keeps c.state c'.state
unfolding boundary_loop after_round
boundary_loop-Keeps zero b tick_price target z on_input c h = cc
boundary_loop-Keeps (suc fuel) b tick_price target z on_input c {c'} h =
    elim (Result-cases (boundary_round b tick_price target z on_input c)) [
      | inr (e, run) ↦ absurd (let same = some-injective (rw run at h) in cc)
      | inl (c₁, run) ↦
          let k = boundary_round-Keeps b tick_price target z on_input c run in
          elim (Bool-cases (is_done c₁ target)) [
            | inl done ↦
                subst (λ d. Keeps c.state d.state)
                  (ok-injective (some-injective (rw (run, after_round, done) at h))) k
            | inr more ↦ Keeps-trans c.state c₁.state c'.state k (
                boundary_loop-Keeps fuel b tick_price target z on_input c₁
                  (rw (run, after_round, more) at h))
          ]
    ]

finish_crossing-Keeps :
    (s : SwapState) (r : Result Crossing) {s' : SwapState}
    → ((c : Crossing) → r ≡ ok c → Keeps s c.state)
    → finish_crossing r ≡ ok s'
    → Keeps s s'
unfolding finish_crossing
finish_crossing-Keeps s r keeps h =
    let (c, e, h₁) = >>=-eq-ok r _ h in
    let k = keeps c e in
    subst (Keeps s) (ok-injective h₁)
      (record { remaining = k.remaining; no_dyn = k.no_dyn; rate = k.rate })

step_to_price-Keeps :
    (fuel : ℕ) (s : SwapState) (b : TickBoundary) (tick_price limit : ℕ) (z on_input : Bool)
    {s' : SwapState}
    → step_to_price fuel s b tick_price limit z on_input ≡ some (ok s')
    → Keeps s s'
unfolding step_to_price
step_to_price-Keeps fuel s b tick_price limit z on_input h =
    let target = clamp_target tick_price limit z in
    let c : Crossing = record {
      state = s;
      liquidity_next = s.liquidity;
      unfilled = b.limit_order_unfilled;
    } in
    let (r, run, ended) =
      map-some finish_crossing (boundary_loop fuel b tick_price target z on_input c) h in
    finish_crossing-Keeps s r
      (λ c' e. boundary_loop-Keeps fuel b tick_price target z on_input c (run ∙ ap some e)) ended

step_to_boundary-Keeps :
    (fuel : ℕ) (s : SwapState) (b : TickBoundary) (limit : ℕ) (z on_input : Bool) {s' : SwapState}
    → step_to_boundary fuel s b limit z on_input ≡ some (ok s')
    → Keeps s s'
unfolding step_to_boundary
step_to_boundary-Keeps fuel s b limit z on_input h =
    elim (Result-cases (sqrt_price_from_tick b.tick_index)) [
      | inl (price, e) ↦
          step_to_price-Keeps fuel s b price limit z on_input (rw (step_to_boundary, e) at h)
      | inr (e, failed) ↦
          absurd (let same = some-injective (rw (step_to_boundary, failed) at h) in cc)
    ]

-- The walk stops with nothing left, at the price limit, or past the last boundary tick.
abbrev pub Ended : TickProvider → Bool → SwapState → Type 0
Ended ticks z s =
    (s.amount_remaining ≡ 0) ⊎ (s.sqrt_price ≡ price_limit z) ⊎ (ticks s.tick z ≡ none)

is_finished-Ended :
    (s : SwapState) (z : Bool) (ticks : TickProvider) → is_finished s z ≡ true → Ended ticks z s
unfolding is_finished
is_finished-Ended s z ticks h = elim (Bool-cases (s.amount_remaining == 0)) [
  | inl spent ↦ inl (==→eq s.amount_remaining 0 spent)
  | inr left ↦ inr (inl (==→eq s.sqrt_price (price_limit z) (rw left at h)))
]

Walked : TickProvider → Bool → (s s' : SwapState) → Type 0
Walked ticks z s s' = Keeps s s' × Ended ticks z s'

after_boundary-Walked :
    (ticks : TickProvider) (z : Bool) (s : SwapState) (go : SwapState → Option (Result SwapState))
    (r : Option (Result SwapState)) {s' : SwapState}
    → ((t : SwapState) → r ≡ some (ok t) → Keeps s t)
    → ((t : SwapState) → go t ≡ some (ok s') → Walked ticks z t s')
    → after_boundary go r ≡ some (ok s')
    → Walked ticks z s s'
unfolding after_boundary Walked
after_boundary-Walked ticks z s go none keeps rest h = cc
after_boundary-Walked ticks z s go (some (err e)) keeps rest h =
    absurd (let same = some-injective h in cc)
after_boundary-Walked ticks z s go (some (ok t)) {s'} keeps rest h =
    let (k, ended) = rest t h in (Keeps-trans s t s' (keeps t refl) k, ended)

walk_ticks-Walked :
    (outer inner : ℕ) (z on_input : Bool) (ticks : TickProvider) (s : SwapState) {s' : SwapState}
    → walk_ticks outer inner z on_input ticks s ≡ some (ok s')
    → Walked ticks z s s'
unfolding walk_ticks visit_boundary Walked
walk_ticks-Walked zero inner z on_input ticks s h = cc
walk_ticks-Walked (suc outer) inner z on_input ticks s h = elim (Bool-cases (is_finished s z)) [
  | inl done ↦
      subst (Walked ticks z s) (ok-injective (some-injective (rw (walk_ticks, done) at h)))
        (Keeps-self s, is_finished-Ended s z ticks done)
  | inr more ↦ elim (Option-cases (ticks s.tick z)) [
    | inl past ↦
        subst (Walked ticks z s) (ok-injective (some-injective (rw (walk_ticks, more, past) at h)))
          (Keeps-self s, inr (inr past))
    | inr (b, found) ↦
        after_boundary-Walked ticks z s (walk_ticks outer inner z on_input ticks)
          (step_to_boundary inner s b (price_limit z) z on_input)
          (λ t e. step_to_boundary-Keeps inner s b (price_limit z) z on_input e)
          (λ t e. walk_ticks-Walked outer inner z on_input ticks t e)
          (rw (walk_ticks, more, found) at h)
  ]
]

new_swap_state-seed :
    (pool : SwapPool) (price liquidity amount : ℕ) {s : SwapState}
    → new_swap_state pool price liquidity amount ≡ ok s
    → s.amount_remaining ≡ amount
unfolding new_swap_state start_state update_reference
new_swap_state-seed pool price liquidity amount h = elim (Bool-cases (enabled pool.dynamic_fee)) [
  | inl on ↦
      let (index, e, h₁) =
        >>=-eq-ok (tick_spacing_index_from_tick pool.tick_current pool.tick_spacing) _
          (rw on at h) in
      ap (λ t. t.amount_remaining) (sym (ok-injective h₁))
  | inr off ↦ ap (λ t. t.amount_remaining) (sym (ok-injective (rw off at h)))
]

open_pool-seed :
    (pool : SwapPool) (amount : ℕ) {s : SwapState}
    → open_pool pool amount ≡ ok s
    → s.amount_remaining ≡ amount
unfolding open_pool
open_pool-seed pool amount h = elim (Option-cases pool.sqrt_price) [
  | inl unset ↦ absurd (let same = rw (open_pool, unset) at h in cc)
  | inr (price, e₁) ↦ elim (Option-cases pool.liquidity) [
    | inl unset ↦ absurd (let same = rw (open_pool, e₁, unset) at h in cc)
    | inr (liquidity, e₂) ↦
        let (_, h₁) =
          fail_if-ok ((pool.status / 2 ^ 4) % 2 == 1) swap_disabled _
            (rw (open_pool, e₁, e₂) at h) in
        new_swap_state-seed pool price liquidity amount h₁
  ]
]

-- A quote that succeeds reports what its walk did: from an opened pool, the walk ends in a state that
-- has the output reported, the input reported and the input that is left add up to the input offered,
-- and the walk ended with nothing left, at the price limit of its direction, or where the provider
-- knows no further boundary tick.
pub quote_exact_in_detailed-Ended :
    (outer inner : ℕ) (pool : SwapPool) (z : Bool) (amount_in : ℕ) (ticks : TickProvider)
    {res : QuoteResult}
    → quote_exact_in_detailed outer inner pool z amount_in ticks ≡ some (ok res)
    → (s : SwapState) × (s' : SwapState) × (open_pool pool amount_in ≡ ok s)
      × (walk_ticks outer inner z (is_fee_on_input pool z) ticks s ≡ some (ok s'))
      × (res.amount_out ≡ s'.amount_out)
      × (res.amount_in_consumed + s'.amount_remaining ≡ amount_in)
      × Ended ticks z s'
unfolding quote_exact_in_detailed report Walked
quote_exact_in_detailed-Ended outer inner pool z amount_in ticks h =
    elim (Result-cases (open_pool pool amount_in)) [
      | inr (e, failed) ↦
          absurd (let same = some-injective (rw (quote_exact_in_detailed, failed) at h) in cc)
      | inl (s, opened) ↦
          let walk = walk_ticks outer inner z (is_fee_on_input pool z) ticks s in
          let (r, run, reported) =
            map-some (report amount_in) walk (rw (quote_exact_in_detailed, opened) at h) in
          let (s', e, h₁) = >>=-eq-ok r _ reported in
          let ran : walk ≡ some (ok s') = run ∙ ap some e in
          let (keeps, ended) =
            walk_ticks-Walked outer inner z (is_fee_on_input pool z) ticks s ran in
          let seed = open_pool-seed pool amount_in opened in
          let same = ok-injective h₁ in
          (
            s,
            s',
            opened,
            ran,
            ap (λ q. q.amount_out) (sym same),
            ap (λ (q : QuoteResult). q.amount_in_consumed + s'.amount_remaining) (sym same)
                ∙ omega (arith, keeps.remaining, seed),
            ended,
          )
    ]
