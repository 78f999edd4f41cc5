-- ===== src/Quote/Dlmm/Swap/Exits.antt =====
-- quote/dlmm/swap_quote.go: where the walk over the bins stops, and what it has drawn by then.
use soldex.Base.{
  ℕ, zero, suc, ◌+◌, ◌≤◌, ◌<◌, ◌≡◌, refl, sym, ap, ◌⊎◌, inl, inr, arith, Bool, true, false, Option,
  none, some, ltb, ◌==◌, if◌then◌else◌, Result, ok, err, >>=-eq-ok, ok-injective, Bool-cases, ==→eq,
}
use mathlib.Core.Path.{subst}
use mathlib.Core.Option
use soldex.Base.Int.{ℤ}
use soldex.Base.Words.{u64_mod, sub_wrap, sub_wrap_exact}
use soldex.Math.Common.{nat}
use soldex.Math.Dlmm.Price.{compute_price_from_id}
use soldex.Quote.Dlmm.Pool.{
  SwapPool, BinReserves, BinProvider, update_references, update_volatility_accumulator,
  fee_on_input,
}
use soldex.Quote.Dlmm.Swap.{
  Walk, Round, stop, again, note_index, visit_bin, next_id, advance, round_at, walk_round,
  walk_bins, after_round, start_walk, swap_at_bin, quote_within, report, QuoteResult,
}
use soldex.Quote.Dlmm.Swap.OneBin.{swap_at_bin-Pays}
use soldex.Quote.Dlmm.Swap.Terminates.{InRange, note_index-keeps}

-- The reserves of a bin are uint64.
abbrev pub IsU64 : BinReserves → Type 0
IsU64 r = (r.amount_x < u64_mod) × (r.amount_y < u64_mod)

abbrev pub AreU64 : BinProvider → Type 0
AreU64 bins = (a : ℤ) (r : BinReserves) → bins a ≡ some r → IsU64 r

max_out-lt :
    (b : Bool) (r : BinReserves) → IsU64 r → (if b then r.amount_y else r.amount_x) < u64_mod
max_out-lt true r h = h.1
max_out-lt false r h = h.0

visit_bin-le :
    (swap_for_y on_input : Bool) (reserves : BinReserves) (w : Walk) {w' : Walk}
    → IsU64 reserves
    → w.amount_left < u64_mod
    → visit_bin swap_for_y on_input reserves w ≡ ok w'
    → w'.amount_left ≤ w.amount_left
unfolding visit_bin
visit_bin-le swap_for_y on_input reserves w {w'} u fits h =
    let max_out : ℕ = if swap_for_y then reserves.amount_y else reserves.amount_x in
    let pool = update_volatility_accumulator w.pool in
    elim (Bool-cases (ltb 0 max_out)) [
      | inr empty ↦ omega (arith, ap (λ (v : Walk). v.amount_left) (ok-injective (rw empty at h)))
      | inl some_out ↦
          let (price, e, h₁) =
            >>=-eq-ok (compute_price_from_id pool.active_id pool.bin_step) _ (rw some_out at h) in
          let (r, e', h₂) =
            >>=-eq-ok (swap_at_bin pool w.amount_left max_out (nat price) swap_for_y on_input) _
              h₁ in
          let (le, _, _) =
            swap_at_bin-Pays pool w.amount_left max_out price swap_for_y on_input fits
              (max_out-lt swap_for_y reserves u) e' in
          let drawn : w'.amount_left ≡ sub_wrap w.amount_left r.0 =
            ap (λ (v : Walk). v.amount_left) (sym (ok-injective h₂)) in
          omega (arith, drawn, sub_wrap_exact w.amount_left r.0 le fits)
    ]

-- The input is used up, or the next bin's array is not cached, or the next bin is out of range.
abbrev pub Exits : Bool → BinProvider → Walk → Type 0
Exits swap_for_y bins w =
    (w.amount_left ≡ 0)
    ⊎ (bins w.pool.active_id ≡ none)
    ⊎ ¬ (InRange (next_id swap_for_y w.pool.active_id))

-- What a round leaves.
RoundOf : Bool → BinProvider → ℕ → Round → Type 0
RoundOf swap_for_y bins left (stop w) = (w.amount_left ≤ left) × Exits swap_for_y bins w
RoundOf swap_for_y bins left (again w) = w.amount_left ≤ left

advance-RoundOf :
    (swap_for_y : Bool) (bins : BinProvider) (w : Walk)
    → RoundOf swap_for_y bins w.amount_left (advance swap_for_y w)
unfolding advance RoundOf
advance-RoundOf swap_for_y bins w = ground arith

RoundOf-le :
    (swap_for_y : Bool) (bins : BinProvider) (a b : ℕ) (r : Round)
    → a ≤ b
    → RoundOf swap_for_y bins a r
    → RoundOf swap_for_y bins b r
unfolding RoundOf
RoundOf-le swap_for_y bins a b (stop w) h k = (omega arith, k.1)
RoundOf-le swap_for_y bins a b (again w) h k = omega arith

final : {w w' : Walk} → ◌≡◌ {A = Option (Result Walk)} (some (ok w)) (some (ok w')) → w ≡ w'
final h = cc

-- What the loop leaves of a state with `left` to go.
abbrev Left : Bool → BinProvider → ℕ → Walk → Type 0
Left swap_for_y bins left w = (w.amount_left ≤ left) × Exits swap_for_y bins w

after_round-Left :
    (swap_for_y : Bool) (bins : BinProvider) (left : ℕ) (rest : Walk → Option (Result Walk))
    (r : Result Round) {w' : Walk}
    → ((q : Round) → r ≡ ok q → RoundOf swap_for_y bins left q)
    → ((v : Walk) → v.amount_left ≤ left → rest v ≡ some (ok w') → Left swap_for_y bins left w')
    → after_round rest r ≡ some (ok w')
    → Left swap_for_y bins left w'
unfolding after_round RoundOf
after_round-Left s bins left rest (err e) one more h = cc
after_round-Left s bins left rest (ok (stop w)) one more h =
    subst (Left s bins left) (final h) (one (stop w) refl)
after_round-Left s bins left rest (ok (again w)) one more h = more w (one (again w) refl) h

module _ (swap_for_y on_input : Bool) (bins : BinProvider) (u : AreU64 bins) where
  round_at-RoundOf :
      (found : Option BinReserves) (w : Walk) {r : Round}
      → w.amount_left < u64_mod
      → bins w.pool.active_id ≡ found
      → round_at swap_for_y on_input found w ≡ ok r
      → RoundOf swap_for_y bins w.amount_left r
  unfolding round_at
  round_at-RoundOf none w fits e h =
      subst (RoundOf swap_for_y bins w.amount_left) (ok-injective h)
        (unfold RoundOf in (omega arith, inr (inl e)))
  round_at-RoundOf (some reserves) w {r} fits e h =
      let (v, f, g) = >>=-eq-ok (visit_bin swap_for_y on_input reserves (note_index w)) _ h in
      let kept = (note_index-keeps w).1 in
      let le =
        visit_bin-le swap_for_y on_input reserves (note_index w) (u w.pool.active_id reserves e)
          (omega arith) f in
      subst (RoundOf swap_for_y bins w.amount_left) (ok-injective g) (
        RoundOf-le swap_for_y bins v.amount_left w.amount_left (advance swap_for_y v) (omega arith)
          (advance-RoundOf swap_for_y bins v))

  -- What the loop leaves.
  walk_bins-Exits :
      (fuel : ℕ) (w : Walk) {w' : Walk}
      → w.amount_left < u64_mod
      → walk_bins fuel swap_for_y on_input bins w ≡ some (ok w')
      → (w'.amount_left ≤ w.amount_left) × Exits swap_for_y bins w'
  unfolding walk_bins
  walk_bins-Exits zero w fits h = cc
  walk_bins-Exits (suc fuel) w {w'} fits h = elim (Bool-cases (w.amount_left == 0)) [
    | inl done ↦
        subst (Left swap_for_y bins w.amount_left) (final (rw done at h))
          (omega arith, inl (==→eq _ _ done))
    | inr more ↦
        after_round-Left swap_for_y bins w.amount_left _ (walk_round swap_for_y on_input bins w)
          (λ q e. unfold walk_round in round_at-RoundOf (bins w.pool.active_id) w fits refl e)
          (λ v le e.
            let (le', exits) = walk_bins-Exits fuel v (omega arith) e in (omega arith, exits))
          (rw more at h)
  ]

map-ok :
    (amount_in : ℕ) (o : Option (Result Walk)) {res : QuoteResult}
    → Option.map (report amount_in) o ≡ some (ok res)
    → (w : Walk) × (o ≡ some (ok w))
      × (res.amount_in_consumed ≡ sub_wrap amount_in w.amount_left)
      × (res.amount_out ≡ w.total_out)
      × (res.bin_array_indices ≡ w.indices)
unfolding report
map-ok amount_in none h = cc
map-ok amount_in (some (err e)) h = cc
map-ok amount_in (some (ok w)) h = (w, refl, ground arith, ground arith, ground arith)

-- A successful quote of a uint64 amount over bins with uint64 reserves reports the state in which the
-- walk from the pool ends: the input consumed and the input that is left there add up to the amount, so
-- none is lost or wrapped; the output and the array indices are those of that state; and there the
-- input is used up, or the array of the active bin is not cached, or the next bin is out of range.
pub quote_within-Exits :
    (fuel : ℕ) (pool : SwapPool) (swap_for_y : Bool) (amount_in : ℕ) (now : ℤ) (bins : BinProvider)
    {res : QuoteResult}
    → AreU64 bins
    → amount_in < u64_mod
    → quote_within fuel pool swap_for_y amount_in now bins ≡ some (ok res)
    → (w : Walk) × (walk_bins fuel swap_for_y
          (fee_on_input (update_references pool now) swap_for_y)
          bins
          (start_walk pool amount_in now)
        ≡ some (ok w))
      × (res.amount_in_consumed + w.amount_left ≡ amount_in)
      × (res.amount_out ≡ w.total_out)
      × (res.bin_array_indices ≡ w.indices)
      × Exits swap_for_y bins w
unfolding quote_within start_walk
quote_within-Exits fuel pool swap_for_y amount_in now bins {res} u fits h =
    let w₀ = start_walk pool amount_in now in
    let on_input = fee_on_input w₀.pool swap_for_y in
    let (w, e, consumed, out, indices) =
      map-ok amount_in (walk_bins fuel swap_for_y on_input bins w₀) h in
    let (le, exits) = walk_bins-Exits swap_for_y on_input bins u fuel w₀ fits e in
    (w, e, omega (arith, sub_wrap_exact amount_in w.amount_left le fits), out, indices, exits)
