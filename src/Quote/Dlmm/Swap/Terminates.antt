-- ===== src/Quote/Dlmm/Swap/Terminates.antt =====
-- quote/dlmm/swap_quote.go: the walk over the bins ends within its fuel, and how it ends.
use soldex.Base.{
  ℕ, zero, suc, ◌+◌, ◌-◌, ◌≤◌, ◌<◌, ◌≡◌, refl, sym, ap, ◌∙◌, inl, inr, arith, Bool, true, false,
  Option, none, some, ltb, ◌==◌, if◌then◌else◌, Result, ok, err, >>=-eq-ok, ok-injective,
  Bool-cases,
}
use mathlib.Core.Path.{subst}
use mathlib.Core.Option
use soldex.Base.Int.{ℤ, pos_part, neg_part, ◌≤ℤ◌}
use soldex.Math.Common.{nat}
use soldex.Math.Dlmm.Price.{compute_price_from_id}
use soldex.Quote.Dlmm.Pool.{
  SwapPool, BinReserves, BinProvider, min_bin_id, max_bin_id, update_volatility_accumulator,
  fee_on_input,
}
use soldex.Quote.Dlmm.Swap.{
  Walk, Round, stop, again, note_index, visit_bin, next_id, advance, round_at, walk_round,
  walk_bins, after_round, start_walk, swap_at_bin, quote_within, quote_exact_in_detailed, report,
  QuoteResult,
}

-- The bin ids of the program.
abbrev pub InRange : ℤ → Type 0
InRange a = (min_bin_id ≤ℤ a) × (a ≤ℤ max_bin_id)

-- The bins that are left in the direction of the swap.
abbrev steps_left : Bool → ℤ → ℕ
steps_left true a = pos_part a + 443_636 - neg_part a
steps_left false a = neg_part a + 443_636 - pos_part a

next_id-step :
    (swap_for_y : Bool) (a : ℤ)
    → InRange a
    → InRange (next_id swap_for_y a)
    → suc (steps_left swap_for_y (next_id swap_for_y a)) ≡ steps_left swap_for_y a
unfolding next_id
next_id-step true a h k = ground arith
next_id-step false a h k = ground arith

pub note_index-keeps :
    (w : Walk) → ((note_index w).pool ≡ w.pool) × ((note_index w).amount_left ≡ w.amount_left)
unfolding note_index
note_index-keeps w = ground arith

update-active_id :
    (pool : SwapPool) → (update_volatility_accumulator pool).active_id ≡ pool.active_id
unfolding update_volatility_accumulator
update-active_id pool = refl

pub visit_bin-active_id :
    (swap_for_y on_input : Bool) (reserves : BinReserves) (w : Walk) {w' : Walk}
    → visit_bin swap_for_y on_input reserves w ≡ ok w'
    → w'.pool.active_id ≡ w.pool.active_id
unfolding visit_bin
visit_bin-active_id swap_for_y on_input reserves w {w'} h =
    let max_out : ℕ = if swap_for_y then reserves.amount_y else reserves.amount_x in
    let pool = update_volatility_accumulator w.pool in
    elim (Bool-cases (ltb 0 max_out)) [
      | inr empty ↦ ap (λ (v : Walk). v.pool.active_id) (sym (ok-injective (rw empty at h)))
      | inl some_out ↦
          let (price, e, h₁) =
            >>=-eq-ok (compute_price_from_id pool.active_id pool.bin_step) _ (rw some_out at h) in
          let (r, e', h₂) =
            >>=-eq-ok (swap_at_bin pool w.amount_left max_out (nat price) swap_for_y on_input) _
              h₁ in
          ap (λ (v : Walk). v.pool.active_id) (sym (ok-injective h₂)) ∙ update-active_id w.pool
    ]

advance-InRange :
    (swap_for_y : Bool) (w : Walk) {w' : Walk}
    → advance swap_for_y w ≡ again w'
    → InRange w'.pool.active_id
      × (w'.pool.active_id ≡ next_id swap_for_y w.pool.active_id)
      × (w'.amount_left ≡ w.amount_left)
unfolding advance
advance-InRange swap_for_y w h = ground arith

round_at-again :
    (swap_for_y on_input : Bool) (found : Option BinReserves) (w : Walk) {w' : Walk}
    → round_at swap_for_y on_input found w ≡ ok (again w')
    → InRange w'.pool.active_id × (w'.pool.active_id ≡ next_id swap_for_y w.pool.active_id)
unfolding round_at
round_at-again swap_for_y on_input none w h = cc
round_at-again swap_for_y on_input (some reserves) w {w'} h =
    let (v, e, g) = >>=-eq-ok (visit_bin swap_for_y on_input reserves (note_index w)) _ h in
    let (inside, next, _) = advance-InRange swap_for_y v (ok-injective g) in
    let same = visit_bin-active_id swap_for_y on_input reserves (note_index w) e in
    let kept = ap (λ (p : SwapPool). p.active_id) (note_index-keeps w).0 in
    (inside, next ∙ ap (next_id swap_for_y) (same ∙ kept))

-- A round that goes on has moved one bin further and is inside the range.
walk_round-again :
    (swap_for_y on_input : Bool) (bins : BinProvider) (w : Walk) {w' : Walk}
    → walk_round swap_for_y on_input bins w ≡ ok (again w')
    → InRange w'.pool.active_id × (w'.pool.active_id ≡ next_id swap_for_y w.pool.active_id)
unfolding walk_round
walk_round-again swap_for_y on_input bins w h =
    round_at-again swap_for_y on_input (bins w.pool.active_id) w h

-- Whether the fuel sufficed.
abbrev Ends : Option (Result Walk) → Type 0
Ends none = ⊥
Ends (some r) = Unit

after_round-Ends :
    (rest : Walk → Option (Result Walk)) (r : Result Round)
    → ((v : Walk) → r ≡ ok (again v) → Ends (rest v))
    → Ends (after_round rest r)
unfolding after_round
after_round-Ends rest (err e) h = tt
after_round-Ends rest (ok (stop w)) h = tt
after_round-Ends rest (ok (again w)) h = h w refl

module _ (swap_for_y on_input : Bool) (bins : BinProvider) where
  -- The loop ends if the rounds after the first one do.
  walk_bins-first :
      (fuel : ℕ) (w : Walk)
      → ((v : Walk)
          → walk_round swap_for_y on_input bins w ≡ ok (again v)
          → Ends (walk_bins fuel swap_for_y on_input bins v))
      → Ends (walk_bins (suc fuel) swap_for_y on_input bins w)
  unfolding walk_bins
  walk_bins-first fuel w h = elim (Bool-cases (w.amount_left == 0)) [
    | inl done ↦ rw done tt
    | inr more ↦ rw more (after_round-Ends _ (walk_round swap_for_y on_input bins w) h)
  ]

  -- From inside the range, one round for each bin that is left is enough.
  walk_bins-Ends :
      (fuel : ℕ) (w : Walk)
      → InRange w.pool.active_id
      → steps_left swap_for_y w.pool.active_id < fuel
      → Ends (walk_bins fuel swap_for_y on_input bins w)
  walk_bins-Ends zero w h k = absurd (omega arith)
  walk_bins-Ends (suc fuel) w h k = walk_bins-first fuel w λ v e.
      let (inside, next) = walk_round-again swap_for_y on_input bins w e in
      let step = next_id-step swap_for_y w.pool.active_id h (subst InRange next inside) in
      walk_bins-Ends fuel v inside
        (subst (λ a. steps_left swap_for_y a < fuel) (sym next) (omega arith))

steps_left-lt : (swap_for_y : Bool) (a : ℤ) → InRange a → steps_left swap_for_y a < 887_273
steps_left-lt true a h = omega arith
steps_left-lt false a h = omega arith

map-Ends :
    (amount_in : ℕ) (o : Option (Result Walk))
    → Ends o
    → (r : Result QuoteResult) × (Option.map (report amount_in) o ≡ some r)
map-Ends amount_in (some r) h = (report amount_in r, refl)
map-Ends amount_in none h = absurd h

quote_within-ends :
    (fuel : ℕ) (pool : SwapPool) (swap_for_y : Bool) (amount_in : ℕ) (now : ℤ) (bins : BinProvider)
    → 887_273 ≤ fuel
    → (r : Result QuoteResult) × (quote_within (suc fuel) pool swap_for_y amount_in now bins
        ≡ some r)
unfolding quote_within
quote_within-ends fuel pool swap_for_y amount_in now bins h =
    let w = start_walk pool amount_in now in
    let on_input = fee_on_input w.pool swap_for_y in
    map-Ends amount_in _ (
      walk_bins-first swap_for_y on_input bins fuel w λ v e.
        let (inside, _) = walk_round-again swap_for_y on_input bins w e in
        let short = steps_left-lt swap_for_y v.pool.active_id inside in
        walk_bins-Ends swap_for_y on_input bins fuel v inside (omega arith))

-- For every pool, direction, amount, time and provider of bins, the walk over the bins ends within its
-- fuel: the quote returns a result or one of the errors.
pub quote_exact_in_detailed-ends :
    (pool : SwapPool) (swap_for_y : Bool) (amount_in : ℕ) (now : ℤ) (bins : BinProvider)
    → (r : Result QuoteResult) × (quote_exact_in_detailed pool swap_for_y amount_in now bins
        ≡ some r)
unfolding quote_exact_in_detailed
quote_exact_in_detailed-ends pool swap_for_y amount_in now bins =
    quote_within-ends 887_274 pool swap_for_y amount_in now bins (omega arith)
