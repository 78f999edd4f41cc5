-- ===== src/Quote/Orca/Swap/Exits.antt =====
-- quote/orca/swap_quote.go: where the walk of a quote ends, and what it reports.
use soldex.Base.{
  ℕ, zero, suc, ◌+◌, ◌≤◌, ◌≡◌, refl, sym, ap, ◌∙◌, ◌⊎◌, inl, inr, arith, Bool, true, false, Option,
  none, some, ◌==◌, Result, ok, err, >>=-eq-ok, ok-injective, Bool-cases, Option-cases, ==→eq,
}
use mathlib.Core.Path.{subst}
use soldex.Base.{Result-cases, some-injective, map-some}
use soldex.Base.Words.{max_u64}
use soldex.Math.Orca.Tick.{sqrt_price_from_tick_index}
use soldex.Quote.Orca.FeeManager.{FeeRateManager, new_fee_rate_manager}
use soldex.Quote.Orca.Swap.{
  SwapPool, TickBoundary, TickProvider, QuoteResult, Walk, clamp_target, swap_round, is_done,
  after_round, swap_rounds, price_limit, step_to_boundary, is_finished, after_boundary,
  visit_boundary, walk_ticks, start_walk, require_manager, open_pool, report,
  quote_exact_in_detailed,
}
use soldex.Quote.Orca.Swap.Rounds.{swap_round-RoundOf}

-- No step adds to the input, takes from the output or changes a static manager.
pub record Keeps (w w' : Walk) : Type 0 where
  pub remaining : w'.amount_remaining ≤ w.amount_remaining
  pub out : w.amount_out ≤ w'.amount_out
  pub word : w.amount_out ≤ max_u64 → w'.amount_out ≤ max_u64
  pub static : w.mgr.adaptive ≡ false → w'.mgr ≡ w.mgr

pub Keeps-self : (w : Walk) → Keeps w w
Keeps-self w = record {
  remaining = omega arith;
  out = omega arith;
  word = λ h. h;
  static = λ _. refl;
}

pub Keeps-trans : (w v u : Walk) → Keeps w v → Keeps v u → Keeps w u
Keeps-trans w v u h k = record {
  remaining = omega (arith, h.remaining, k.remaining);
  out = omega (arith, h.out, k.out);
  word = λ e. k.word (h.word e);
  static = λ e. k.static (ap (λ m. m.adaptive) (h.static e) ∙ e) ∙ h.static e;
}

pub swap_round-Keeps :
    (b : TickBoundary) (tick_price target : ℕ) (z : Bool) (w : Walk) {w' : Walk}
    → swap_round b tick_price target z w ≡ ok w'
    → Keeps w w'
swap_round-Keeps b tick_price target z w h =
    let r = swap_round-RoundOf b tick_price target z w h in
    record {
      remaining = omega (arith, r.books.remaining, r.lands.remaining);
      out = omega (arith, r.books.out, r.lands.out);
      word = λ _. omega (arith, r.books.word, r.lands.out);
      static = r.static;
    }

swap_rounds-Keeps :
    (fuel : ℕ) (b : TickBoundary) (tick_price target : ℕ) (z : Bool) (w : Walk) {w' : Walk}
    → swap_rounds fuel b tick_price target z w ≡ some (ok w')
    → Keeps w w'
unfolding swap_rounds after_round
swap_rounds-Keeps zero b tick_price target z w h = cc
swap_rounds-Keeps (suc fuel) b tick_price target z w {w'} h =
    elim (Result-cases (swap_round b tick_price target z w)) [
      | inr (e, run) ↦ absurd (let same = some-injective (rw run at h) in cc)
      | inl (w₁, run) ↦
          let k = swap_round-Keeps b tick_price target z w run in
          elim (Bool-cases (is_done w₁ target)) [
            | inl done ↦
                subst (Keeps w) (ok-injective (some-injective (rw (run, after_round, done) at h))) k
            | inr more ↦
                Keeps-trans w w₁ w' k (
                  swap_rounds-Keeps fuel b tick_price target z w₁
                    (rw (run, after_round, more) at h))
          ]
    ]

pub step_to_boundary-Keeps :
    (fuel : ℕ) (w : Walk) (z : Bool) (b : TickBoundary) {w' : Walk}
    → step_to_boundary fuel w z b ≡ some (ok w')
    → Keeps w w'
unfolding step_to_boundary
step_to_boundary-Keeps fuel w z b h =
    let tick_price = sqrt_price_from_tick_index b.tick_index in
    swap_rounds-Keeps fuel b tick_price (clamp_target tick_price (price_limit z) z) z w h

-- The walk stops with nothing left, at the price limit, or past the last boundary tick.
abbrev pub Stops : TickProvider → Bool → Walk → Type 0
Stops ticks z w =
    (w.amount_remaining ≡ 0) ⊎ (w.sqrt_price ≡ price_limit z) ⊎ (ticks w.curr_tick z ≡ none)

is_finished-Stops :
    (w : Walk) (z : Bool) (ticks : TickProvider) → is_finished w z ≡ true → Stops ticks z w
unfolding is_finished
is_finished-Stops w z ticks h = elim (Bool-cases (w.amount_remaining == 0)) [
  | inl spent ↦ inl (==→eq w.amount_remaining 0 spent)
  | inr left ↦ inr (inl (==→eq w.sqrt_price (price_limit z) (rw left at h)))
]

Walked : TickProvider → Bool → (w w' : Walk) → Type 0
Walked ticks z w w' = Keeps w w' × Stops ticks z w'

after_boundary-Walked :
    (ticks : TickProvider) (z : Bool) (w : Walk) (go : Walk → Option (Result Walk))
    (r : Option (Result Walk)) {w' : Walk}
    → ((v : Walk) → r ≡ some (ok v) → Keeps w v)
    → ((v : Walk) → go v ≡ some (ok w') → Walked ticks z v w')
    → after_boundary go r ≡ some (ok w')
    → Walked ticks z w w'
unfolding after_boundary Walked
after_boundary-Walked ticks z w go none keeps rest h = cc
after_boundary-Walked ticks z w go (some (err e)) keeps rest h =
    absurd (let same = some-injective h in cc)
after_boundary-Walked ticks z w go (some (ok v)) {w'} keeps rest h =
    let (k, ended) = rest v h in (Keeps-trans w v w' (keeps v refl) k, ended)

walk_ticks-Walked :
    (outer inner : ℕ) (z : Bool) (ticks : TickProvider) (w : Walk) {w' : Walk}
    → walk_ticks outer inner z ticks w ≡ some (ok w')
    → Walked ticks z w w'
unfolding walk_ticks visit_boundary Walked
walk_ticks-Walked zero inner z ticks w h = cc
walk_ticks-Walked (suc outer) inner z ticks w h = elim (Bool-cases (is_finished w z)) [
  | inl done ↦
      subst (Walked ticks z w) (ok-injective (some-injective (rw (walk_ticks, done) at h)))
        (Keeps-self w, is_finished-Stops w z ticks done)
  | inr more ↦ elim (Option-cases (ticks w.curr_tick z)) [
    | inl past ↦
        subst (Walked ticks z w) (ok-injective (some-injective (rw (walk_ticks, more, past) at h)))
          (Keeps-self w, inr (inr past))
    | inr (b, found) ↦
        after_boundary-Walked ticks z w (walk_ticks outer inner z ticks)
          (step_to_boundary inner w z b) (λ v e. step_to_boundary-Keeps inner w z b e)
          (λ v e. walk_ticks-Walked outer inner z ticks v e) (rw (walk_ticks, more, found) at h)
  ]
]

-- What an opened pool starts from.
pub record Opened (pool : SwapPool) (z : Bool) (amount_in : ℕ) (w : Walk) : Type 0 where
  pub remaining : w.amount_remaining ≡ amount_in
  pub out : w.amount_out ≡ 0
  pub tick : w.curr_tick ≡ pool.tick_current_index
  pub price : pool.sqrt_price ≡ some w.sqrt_price
  pub liquidity : pool.liquidity ≡ some w.liquidity
  pub manager :
      new_fee_rate_manager z pool.tick_current_index pool.timestamp pool.fee_rate pool.adaptive_fee
      ≡ ok (some w.mgr)

require_manager-ok :
    (found : Option FeeRateManager) {m : FeeRateManager}
    → require_manager found ≡ ok m
    → found ≡ some m
unfolding require_manager
require_manager-ok none h = cc
require_manager-ok (some m) h = ap some (ok-injective h)

pub open_pool-Opened :
    (pool : SwapPool) (z : Bool) (amount_in : ℕ) {w : Walk}
    → open_pool pool z amount_in ≡ ok w
    → Opened pool z amount_in w
unfolding open_pool start_walk
open_pool-Opened pool z amount_in h = elim (Option-cases pool.sqrt_price) [
  | inl unset ↦ absurd (let same = rw (open_pool, unset) at h in cc)
  | inr (price, e₁) ↦ elim (Option-cases pool.liquidity) [
    | inl unset ↦ absurd (let same = rw (open_pool, e₁, unset) at h in cc)
    | inr (liquidity, e₂) ↦
        let made =
          new_fee_rate_manager z pool.tick_current_index pool.timestamp pool.fee_rate
            pool.adaptive_fee in
        let (found, run, h₁) = >>=-eq-ok made _ (rw (open_pool, e₁, e₂) at h) in
        let (mgr, e₃, h₂) = >>=-eq-ok (require_manager found) _ h₁ in
        subst (Opened pool z amount_in) (ok-injective h₂) (record {
          remaining = refl;
          out = refl;
          tick = refl;
          price = e₁;
          liquidity = e₂;
          manager = run ∙ ap ok (require_manager-ok found e₃);
        })
  ]
]

-- A quote that succeeds reports what its walk did: from an opened pool, the walk ends in a state that
-- has the output reported, which is a word, the input reported and the input that is left add up to
-- the input offered, and the walk ended with nothing left, at the price limit of its direction, or
-- where the provider knows no further boundary tick.
pub quote_exact_in_detailed-Stops :
    (outer inner : ℕ) (pool : SwapPool) (z : Bool) (amount_in : ℕ) (ticks : TickProvider)
    {res : QuoteResult}
    → quote_exact_in_detailed outer inner pool z amount_in ticks ≡ some (ok res)
    → (w : Walk) × (w' : Walk) × (open_pool pool z amount_in ≡ ok w)
      × (walk_ticks outer inner z ticks w ≡ some (ok w'))
      × (res.amount_out ≡ w'.amount_out)
      × (w'.amount_out ≤ max_u64)
      × (res.amount_in_consumed + w'.amount_remaining ≡ amount_in)
      × Stops ticks z w'
unfolding quote_exact_in_detailed report Walked
quote_exact_in_detailed-Stops outer inner pool z amount_in ticks h =
    elim (Result-cases (open_pool pool z amount_in)) [
      | inr (e, failed) ↦
          absurd (let same = some-injective (rw (quote_exact_in_detailed, failed) at h) in cc)
      | inl (w, opened) ↦
          let walk = walk_ticks outer inner z ticks w in
          let (r, run, reported) =
            map-some (report amount_in) walk (rw (quote_exact_in_detailed, opened) at h) in
          let (w', e, h₁) = >>=-eq-ok r _ reported in
          let ran : walk ≡ some (ok w') = run ∙ ap some e in
          let (keeps, ended) = walk_ticks-Walked outer inner z ticks w ran in
          let seed = open_pool-Opened pool z amount_in opened in
          let same = ok-injective h₁ in
          (
            w,
            w',
            opened,
            ran,
            ap (λ q. q.amount_out) (sym same),
            keeps.word (omega (arith, seed.out)),
            ap (λ (q : QuoteResult). q.amount_in_consumed + w'.amount_remaining) (sym same)
                ∙ omega (arith, keeps.remaining, seed.remaining),
            ended,
          )
    ]
