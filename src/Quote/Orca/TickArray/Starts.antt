-- ===== src/Quote/Orca/TickArray/Starts.antt =====
-- quote/orca/tick_array.go: the starts of the arrays that a swap walks.
use soldex.Base.{
  ℕ, ◌-◌, ◌^◌, ◌≤◌, ◌<◌, ◌≡◌, refl, sym, inl, inr, arith, Bool, true, false, not, ◌||◌, Option,
  some, List, [], ◌∷◌, if◌then◌else◌, Result, ok, >>=-eq-ok, ok-injective, Bool-cases,
}
use mathlib.Core.Path.{subst}
use soldex.Base.Int.{ℤ, pos, negsuc, nat_abs, ◌+ℤ◌, ◌-ℤ◌, ltb_ℤ, rem_abs, wrap_i32, wrap_i32_id}
use soldex.Math.Orca.Tick.{min_tick_index, max_tick_index}
use soldex.Models.Bytes.{length}
use soldex.Math.Raydium.Tick.{scale_ℤ}
use soldex.Models.Whirlpool.Start.{tick_array_start_index-Holds}
use soldex.Quote.Orca.Swap.{TickBoundary}
use soldex.Models.Whirlpool.{span_of, tick_array_start_index}
use soldex.Quote.Orca.TickArray.{
  TickArrayLoader, Walker, walker_over, new_tick_array_walker, next, valid_start_tick,
  start_offsets, valid_starts, swap_tick_array_starts,
}
use soldex.Quote.Orca.TickArray.Ends.{InRange, eqb→eq, next-ends}

inside_range :
    (s : ℤ) → (ltb_ℤ s min_tick_index || ltb_ℤ max_tick_index s) ≡ false → nat_abs s < 2 ^ 30
inside_range (pos n) h = ground arith
inside_range (negsuc n) h = ground arith

left_edge : (k : ℕ) → k < 2 ^ 24 → nat_abs (wrap_i32 (min_tick_index -ℤ pos k)) < 2 ^ 30
unfolding ◌-ℤ◌
left_edge k h = rw (wrap_i32_id (min_tick_index -ℤ pos k) (ground arith)) (ground arith)

-- A valid start is in range.
valid_start_tick-InRange :
    (s : ℤ) (spacing : ℕ)
    → spacing < 2 ^ 16
    → valid_start_tick s spacing ≡ true
    → nat_abs s < 2 ^ 30
unfolding valid_start_tick
valid_start_tick-InRange s spacing word h =
    let span = span_of spacing in
    elim (Bool-cases (ltb_ℤ s min_tick_index || ltb_ℤ max_tick_index s)) [
      | inr inside ↦ inside_range s inside
      | inl outside ↦ elim (Bool-cases (ltb_ℤ min_tick_index s)) [
        | inl above ↦ absurd (let same = rw (outside, above) at h in cc)
        | inr below ↦
            let k = span - rem_abs min_tick_index span in
            let same = eqb→eq s (wrap_i32 (min_tick_index -ℤ pos k)) (rw (outside, below) at h) in
            subst (λ t. nat_abs t < 2 ^ 30) (sym same) (left_edge k (omega arith))
      ]
    ]

valid_starts-InRange :
    (base : ℤ) (spacing : ℕ) (offsets : List ℤ)
    → spacing < 2 ^ 16
    → InRange (valid_starts base spacing offsets)
      × (length (valid_starts base spacing offsets) ≤ length offsets)
unfolding valid_starts InRange length
valid_starts-InRange base spacing [] word = (tt, omega arith)
valid_starts-InRange base spacing (offset ∷ offsets) word =
    let start = wrap_i32 (base +ℤ wrap_i32 (scale_ℤ offset (span_of spacing))) in
    let (range, few) = valid_starts-InRange base spacing offsets word in
    elim (Bool-cases (valid_start_tick start spacing)) [
      | inl valid ↦
          rw valid ((valid_start_tick-InRange start spacing word valid, range), omega (arith, few))
      | inr invalid ↦ rw invalid (range, omega (arith, few))
    ]

three :
    (t : Bool) → length (if t then pos 1 ∷ pos 2 ∷ pos 3 ∷ [] else pos 0 ∷ pos 1 ∷ pos 2 ∷ []) ≡ 3
unfolding length
three true = refl
three false = refl

start_offsets-length :
    (tick base : ℤ) (spacing : ℕ) (z : Bool) → length (start_offsets tick base spacing z) ≡ 3
unfolding start_offsets length
start_offsets-length tick base spacing true = refl
start_offsets-length tick base spacing false =
    three (not (ltb_ℤ (wrap_i32 (tick +ℤ pos spacing)) (wrap_i32 (base +ℤ pos (span_of spacing)))))

-- A swap walks at most three arrays, all with starts in range.
pub swap_tick_array_starts-InRange :
    (tick : ℤ) (spacing : ℕ) (z : Bool) {starts : List ℤ}
    → spacing < 2 ^ 16
    → swap_tick_array_starts tick spacing z ≡ ok starts
    → InRange starts × (length starts ≤ 3)
unfolding swap_tick_array_starts
swap_tick_array_starts-InRange tick spacing z word h =
    let (base, _, h₁) = >>=-eq-ok (tick_array_start_index tick spacing) _ h in
    let offsets = start_offsets tick base spacing z in
    let (range, few) = valid_starts-InRange base spacing offsets word in
    subst (λ (starts : List ℤ). InRange starts × (length starts ≤ 3)) (ok-injective h₁)
      (range, omega (arith, few, start_offsets-length tick base spacing z))

-- The walker of a pool with a spacing that is a uint16 and not zero exists for any tick in range, and its
-- `Next` returns from any tick in either direction, whatever the loader answers.
pub new_tick_array_walker-ends :
    (tick from_tick : ℤ) (spacing : ℕ) (z up : Bool) (load : TickArrayLoader)
    → nat_abs tick < 2 ^ 30
    → 0 < spacing
    → spacing < 2 ^ 16
    → (w : Walker) × (new_tick_array_walker tick spacing z load ≡ ok w)
      × ((r : Result (Walker × Option TickBoundary)) × (next w from_tick up ≡ some r))
unfolding new_tick_array_walker swap_tick_array_starts walker_over
new_tick_array_walker-ends tick from_tick spacing z up load range positive word =
    let (base, found, _) = tick_array_start_index-Holds tick spacing range positive word in
    let starts = valid_starts base spacing (start_offsets tick base spacing z) in
    let made : swap_tick_array_starts tick spacing z ≡ ok starts = rw found refl in
    let (within, few) = swap_tick_array_starts-InRange tick spacing z word made in
    let w = walker_over spacing starts load in
    (w, rw found refl, next-ends w from_tick up within few positive word)
