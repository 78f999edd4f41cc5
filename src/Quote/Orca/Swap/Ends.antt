-- ===== src/Quote/Orca/Swap/Ends.antt =====
-- quote/orca/swap_quote.go: the quote of a pool without an adaptive fee returns.
use soldex.Base.{
  ℕ, zero, suc, ◌+◌, ◌-◌, ◌<◌, ◌≡◌, refl, sym, ap, ◌∙◌, ◌⊎◌, inl, inr, arith, Bool, true, false,
  none, some, if◌then◌else◌, Result, ok, err, ok-injective, Bool-cases, Option-cases,
}
use mathlib.Core.Path.{subst}
use soldex.Base.{Result-cases, some-injective}
use soldex.Base.Int.{ℤ, pos, pos_part, neg_part, ◌≤ℤ◌, ◌-ℤ◌, sub_ℕ, IsI32, wrap_i32, wrap_i32_id}
use soldex.Base.Words.{u64_mod}
use soldex.Math.Orca.Tick.{min_tick_index, max_tick_index, sqrt_price_from_tick_index}
use soldex.Math.Orca.Tick.Positive.{sqrt_price_from_tick_index-pos}
use soldex.Quote.Orca.FeeManager.{static_manager, new_fee_rate_manager}
use soldex.Quote.Orca.Step.{fee_rate_mul_value}
use soldex.Quote.Orca.Swap.{
  SwapPool, TickBoundary, TickProvider, QuoteResult, Walk, clamp_target, swap_round, price_limit,
  step_to_boundary, is_finished, after_boundary, visit_boundary, walk_ticks, open_pool, report,
  quote_exact_in_detailed,
}
use soldex.Quote.Orca.Swap.Rounds.{swap_round-RoundOf}
use soldex.Quote.Orca.Swap.Exits.{open_pool-Opened}
use soldex.Quote.Orca.Swap.OneRound.{IsPlain, swap_round-IsPlain, swap_rounds-eq-swap_round}

-- A provider as documented: a boundary is a tick of the tick range, at or below the given tick on the
-- way down, and above it on the way up.
pub record IsSearch (ticks : TickProvider) : Type 0 where
  pub above_min :
      (from_tick : ℤ) (z : Bool) (b : TickBoundary)
      → ticks from_tick z ≡ some b
      → min_tick_index ≤ℤ b.tick_index
  pub below_max :
      (from_tick : ℤ) (z : Bool) (b : TickBoundary)
      → ticks from_tick z ≡ some b
      → b.tick_index ≤ℤ max_tick_index
  pub down :
      (from_tick : ℤ) (b : TickBoundary) → ticks from_tick true ≡ some b → b.tick_index ≤ℤ from_tick
  pub up :
      (from_tick : ℤ) (b : TickBoundary)
      → ticks from_tick false ≡ some b
      → pos_part from_tick + neg_part b.tick_index < pos_part b.tick_index + neg_part from_tick

-- The number of ticks that are left in the direction of the swap.
unfoldable pub ticks_left : Bool → ℤ → ℕ
ticks_left true tick = pos_part tick + 443_637 - neg_part tick
ticks_left false tick = 443_636 + neg_part tick - pos_part tick

price_limit-pos : (z : Bool) → 0 < price_limit z
unfolding price_limit
price_limit-pos true = omega arith
price_limit-pos false = omega arith

-- The target is the price of the tick or the limit.
clamp_target-cases :
    (tick_price limit : ℕ) (z : Bool)
    → (clamp_target tick_price limit z ≡ tick_price) ⊎ (clamp_target tick_price limit z ≡ limit)
unfolding clamp_target
clamp_target-cases tick_price limit true = ground arith
clamp_target-cases tick_price limit false = ground arith

clamp_target-pos :
    (tick : ℤ) (z : Bool) → 0 < clamp_target (sqrt_price_from_tick_index tick) (price_limit z) z
clamp_target-pos tick z =
    let limited : 0 < price_limit z = price_limit-pos z in
    elim (clamp_target-cases (sqrt_price_from_tick_index tick) (price_limit z) z) [
      | inl same ↦ omega (arith, same, sqrt_price_from_tick_index-pos tick)
      | inr same ↦ omega (arith, same, limited)
    ]

-- After a boundary that was reached fewer ticks are left.
down-fewer :
    (b from_tick : ℤ)
    → min_tick_index ≤ℤ b
    → b ≤ℤ max_tick_index
    → b ≤ℤ from_tick
    → ticks_left true (wrap_i32 (b -ℤ pos 1)) < ticks_left true from_tick
unfolding ticks_left ◌-ℤ◌
down-fewer b from_tick low high le =
    let below : b -ℤ pos 1 ≡ sub_ℕ (pos_part b) (neg_part b + 1) =
      ap (λ n. sub_ℕ n (neg_part b + 1)) (omega arith) in
    let range : IsI32 (sub_ℕ (pos_part b) (neg_part b + 1)) = ground arith in
    rw (below, wrap_i32_id (sub_ℕ (pos_part b) (neg_part b + 1)) range) (ground arith)

up-fewer :
    (b from_tick : ℤ)
    → b ≤ℤ max_tick_index
    → pos_part from_tick + neg_part b < pos_part b + neg_part from_tick
    → ticks_left false b < ticks_left false from_tick
unfolding ticks_left
up-fewer b from_tick high lt = omega arith

-- A boundary was reached: the walk is over, or it is plain with fewer ticks left.
Onward : Bool → (w w' : Walk) → Type 0
Onward z w w' =
    IsPlain w'
    × ((is_finished w' z ≡ true) ⊎ (ticks_left z w'.curr_tick < ticks_left z w.curr_tick))

spent_finished : (w : Walk) (z : Bool) → w.amount_remaining ≡ 0 → is_finished w z ≡ true
unfolding is_finished
spent_finished w z h = ground arith

limit_finished : (w : Walk) (z : Bool) → w.sqrt_price ≡ price_limit z → is_finished w z ≡ true
unfolding is_finished
limit_finished w z h = ground arith

tick_fewer :
    (ticks : TickProvider) (z : Bool) (b : TickBoundary) (from_tick : ℤ)
    → IsSearch ticks
    → ticks from_tick z ≡ some b
    → ticks_left z (if z then wrap_i32 (b.tick_index -ℤ pos 1) else b.tick_index)
      < ticks_left z from_tick
tick_fewer ticks true b from_tick finds found =
    down-fewer b.tick_index from_tick (finds.above_min from_tick true b found)
      (finds.below_max from_tick true b found) (finds.down from_tick b found)
tick_fewer ticks false b from_tick finds found =
    up-fewer b.tick_index from_tick (finds.below_max from_tick false b found)
      (finds.up from_tick b found)

swap_round-Onward :
    (ticks : TickProvider) (z : Bool) (b : TickBoundary) (w : Walk) {w' : Walk}
    → IsSearch ticks
    → IsPlain w
    → ticks w.curr_tick z ≡ some b
    → (let tick_price = sqrt_price_from_tick_index b.tick_index in
        swap_round b tick_price (clamp_target tick_price (price_limit z) z) z w ≡ ok w')
    → Onward z w w'
unfolding Onward
swap_round-Onward ticks z b w {w'} finds h found run =
    let tick_price = sqrt_price_from_tick_index b.tick_index in
    let target = clamp_target tick_price (price_limit z) z in
    let (plain, ends) =
      swap_round-IsPlain b tick_price target z w h (clamp_target-pos b.tick_index z) run in
    let r = swap_round-RoundOf b tick_price target z w run in
    (
      plain,
      elim ends [
        | inr spent ↦ inl (spent_finished w' z spent)
        | inl there ↦ elim (clamp_target-cases tick_price (price_limit z) z) [
          | inr limit ↦ inl (limit_finished w' z (there ∙ limit))
          | inl tick ↦
              let (_, landed) = r.lands.crossed (sym r.price ∙ there ∙ tick) in
              inr (
                subst (λ t. ticks_left z t < ticks_left z w.curr_tick) (sym landed)
                  (tick_fewer ticks z b w.curr_tick finds found))
        ]
      ],
    )

walk_ticks_finished :
    (outer inner : ℕ) (z : Bool) (ticks : TickProvider) (w : Walk)
    → is_finished w z ≡ true
    → walk_ticks (suc outer) inner z ticks w ≡ some (ok w)
unfolding walk_ticks
walk_ticks_finished outer inner z ticks w h = rw (walk_ticks, h) refl

-- One round for each boundary, and one more boundary than there are ticks left, are enough.
pub walk_ticks-ends :
    (outer inner : ℕ) (z : Bool) (ticks : TickProvider) (w : Walk)
    → IsSearch ticks
    → IsPlain w
    → ticks_left z w.curr_tick + 1 < outer
    → (r : Result Walk) × (walk_ticks outer (suc inner) z ticks w ≡ some r)
unfolding walk_ticks visit_boundary after_boundary step_to_boundary Onward
walk_ticks-ends zero inner z ticks w finds h enough = absurd (omega arith)
walk_ticks-ends (suc zero) inner z ticks w finds h enough = absurd (omega arith)
walk_ticks-ends (suc (suc outer)) inner z ticks w finds h enough =
    elim (Bool-cases (is_finished w z)) [
      | inl done ↦ (ok w, walk_ticks_finished (suc outer) (suc inner) z ticks w done)
      | inr more ↦ elim (Option-cases (ticks w.curr_tick z)) [
        | inl past ↦ (ok w, rw (walk_ticks, more, past) refl)
        | inr (b, found) ↦
            let tick_price = sqrt_price_from_tick_index b.tick_index in
            let target = clamp_target tick_price (price_limit z) z in
            let one =
              swap_rounds-eq-swap_round inner b tick_price target z w h
                (clamp_target-pos b.tick_index z) in
            elim (Result-cases (swap_round b tick_price target z w)) [
              | inr (e, failed) ↦ (err e, rw (walk_ticks, more, found, one, failed) refl)
              | inl (w', run) ↦
                  let (plain, onward) = swap_round-Onward ticks z b w finds h found run in
                  let (r, rest) : (r : Result Walk) × (walk_ticks (suc outer) (suc inner) z ticks w'
                        ≡ some r) =
                    elim onward [
                      | inl done ↦ (ok w', walk_ticks_finished outer (suc inner) z ticks w' done)
                      | inr fewer ↦
                          walk_ticks-ends (suc outer) inner z ticks w' finds plain
                            (omega (arith, fewer))
                    ] in
                  (r, rw (walk_ticks, more, found, one, run) rest)
            ]
      ]
    ]

-- The quote of a pool without an adaptive fee, with a fee below 100%, a price that is not zero and a
-- uint64 to swap, returns a result or an error, for any provider that answers with ticks of the tick
-- range in the direction of the swap: one round for each boundary, and two more boundaries than there
-- are ticks left to the end of the range, are enough fuel.
pub quote_exact_in_detailed-returns :
    (outer inner : ℕ) (pool : SwapPool) (z : Bool) (amount_in : ℕ) (ticks : TickProvider)
    (price : ℕ)
    → pool.adaptive_fee ≡ none
    → pool.fee_rate < fee_rate_mul_value
    → pool.sqrt_price ≡ some price
    → 0 < price
    → amount_in < u64_mod
    → IsSearch ticks
    → ticks_left z pool.tick_current_index + 1 < outer
    → (r : Result QuoteResult) × (quote_exact_in_detailed outer (suc inner) pool z amount_in ticks
        ≡ some r)
unfolding quote_exact_in_detailed static_manager new_fee_rate_manager
quote_exact_in_detailed-returns outer inner pool z amount_in ticks price plain rated priced positive
      fits finds enough =
    elim (Result-cases (open_pool pool z amount_in)) [
      | inr (e, failed) ↦ (err e, rw (quote_exact_in_detailed, failed) refl)
      | inl (w, opened) ↦
          let o = open_pool-Opened pool z amount_in opened in
          let mgr : static_manager pool.fee_rate ≡ w.mgr =
            some-injective (ok-injective (rw plain at o.manager)) in
          let (r, run) =
            walk_ticks-ends outer inner z ticks w finds
              (record {
                static = ap (λ m. m.adaptive) (sym mgr);
                rated = omega (arith, rated, ap (λ m. m.static_fee_rate) mgr);
                positive = subst (λ n. 0 < n) (some-injective (sym priced ∙ o.price)) positive;
                word = omega (arith, fits, o.remaining);
              })
              (subst (λ t. ticks_left z t + 1 < outer) (sym o.tick) enough) in
          (report amount_in r, rw (quote_exact_in_detailed, opened, run) refl)
    ]
