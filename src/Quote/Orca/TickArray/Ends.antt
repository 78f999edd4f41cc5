-- ===== src/Quote/Orca/TickArray/Ends.antt =====
-- quote/orca/tick_array.go: `Next` returns.
use soldex.Base.{
  ℕ, zero, suc, ◌+◌, ◌^◌, ◌≤◌, ◌<◌, ◌≡◌, refl, sym, ap, inl, inr, arith, Bool, true, false, not,
  ◌&&◌, Option, none, some, List, [], ◌∷◌, if◌then◌else◌, Result, ok, err, Bool-cases, Option-cases,
  ==→eq,
}
use mathlib.Core.Path.{subst}
use soldex.Base.{Result-cases}
use soldex.Base.Int.{
  ℤ, pos, negsuc, pos_part, neg_part, nat_abs, sub_ℕ-parts, ◌+ℤ◌, ◌-ℤ◌, ltb_ℤ, eqb_ℤ, wrap_i32_id,
}
use soldex.Models.Bytes.{length}
use soldex.Models.Whirlpool.{span_of}
use soldex.Quote.Raydium.TickArray.{is_some}
use soldex.Quote.Orca.Swap.{TickBoundary}
use soldex.Quote.Orca.TickArray.{
  TickArray, Walker, reachable, hold, load_array, edge_of, next_array, after_search, visit_held,
  next_loop, first_array, next,
}

-- Every start lies in a range where a further span does not wrap.
unfoldable pub InRange : List ℤ → Type 0
InRange [] = Unit
InRange (s ∷ starts) = (nat_abs s < 2 ^ 30) × InRange starts

-- The start `x` is at `s` or further on in the direction of the swap.
ahead : Bool → (s x : ℤ) → Bool
ahead true s x = not (ltb_ℤ s x)
ahead false s x = not (ltb_ℤ x s)

-- The number of starts that are left.
count_ahead : Bool → List ℤ → ℤ → ℕ
count_ahead z [] s = 0
count_ahead z (x ∷ starts) s = (if ahead z s x then 1 else 0) + count_ahead z starts s

Further : Bool → (s t : ℤ) → Type 0
Further true s t = pos_part t + neg_part s < pos_part s + neg_part t
Further false s t = pos_part s + neg_part t < pos_part t + neg_part s

ahead-Further :
    (z : Bool) (s t x : ℤ)
    → Further z s t
    → (if ahead z t x then 1 else 0) ≤ (if ahead z s x then 1 else 0)
unfolding ahead Further
ahead-Further true s t x h = ground arith
ahead-Further false s t x h = ground arith

count_ahead-le :
    (z : Bool) (starts : List ℤ) (s t : ℤ)
    → Further z s t
    → count_ahead z starts t ≤ count_ahead z starts s
unfolding count_ahead
count_ahead-le z [] s t h = omega arith
count_ahead-le z (x ∷ starts) s t h =
    omega (arith, ahead-Further z s t x h, count_ahead-le z starts s t h)

pub eqb→eq : (a b : ℤ) → eqb_ℤ a b ≡ true → a ≡ b
eqb→eq (pos m) (pos n) h = ap pos (==→eq m n h)
eqb→eq (negsuc m) (negsuc n) h = ap negsuc (==→eq m n h)
eqb→eq (pos m) (negsuc n) h = cc
eqb→eq (negsuc m) (pos n) h = cc

here_passed :
    (z : Bool) (s t : ℤ)
    → Further z s t
    → (if ahead z t s then 1 else 0) + 1 ≤ (if ahead z s s then 1 else 0)
unfolding ahead Further
here_passed true s t h = ground arith
here_passed false s t h = ground arith

-- Past a start there are fewer left.
count_ahead-lt :
    (z : Bool) (starts : List ℤ) (s t : ℤ)
    → reachable starts s ≡ true
    → Further z s t
    → count_ahead z starts t < count_ahead z starts s
unfolding count_ahead reachable
count_ahead-lt z [] s t h k = cc
count_ahead-lt z (x ∷ starts) s t h k = elim (Bool-cases (eqb_ℤ s x)) [
  | inl here ↦
      let passed =
        subst (λ y. (if ahead z t y then 1 else 0) + 1 ≤ (if ahead z s y then 1 else 0))
          (eqb→eq s x here) (here_passed z s t k) in
      omega (arith, passed, count_ahead-le z starts s t k)
  | inr later ↦
      let rest = count_ahead-lt z starts s t (rw later at h) k in
      omega (arith, ahead-Further z s t x k, rest)
]

count_ahead-le_length :
    (z : Bool) (starts : List ℤ) (s : ℤ) → count_ahead z starts s ≤ length starts
unfolding count_ahead length
count_ahead-le_length z [] s = omega arith
count_ahead-le_length z (x ∷ starts) s =
    let one : (if ahead z s x then 1 else 0) ≤ 1 = ground arith in
    omega (arith, one, count_ahead-le_length z starts s)

reachable-InRange :
    (starts : List ℤ) (s : ℤ) → InRange starts → reachable starts s ≡ true → nat_abs s < 2 ^ 30
unfolding InRange reachable
reachable-InRange [] s h k = cc
reachable-InRange (x ∷ starts) s (here, there) k = elim (Bool-cases (eqb_ℤ s x)) [
  | inl same ↦ subst (λ y. nat_abs y < 2 ^ 30) (sym (eqb→eq s x same)) here
  | inr later ↦ reachable-InRange starts s there (rw later at k)
]

hold-same :
    (w : Walker) (s : ℤ) (r : Result (Option TickArray))
    → ((hold w s r).0.starts ≡ w.starts) × ((hold w s r).0.tick_spacing ≡ w.tick_spacing)
unfolding hold
hold-same w s (err e) = (refl, refl)
hold-same w s (ok none) = (refl, refl)
hold-same w s (ok (some ticks)) = (refl, refl)

-- The next array is further on.
next_array-Further :
    (spacing : ℕ) (s : ℤ) (z : Bool)
    → 0 < spacing
    → spacing < 2 ^ 16
    → nat_abs s < 2 ^ 30
    → Further z s (next_array spacing s z).0
unfolding Further next_array ◌+ℤ◌ ◌-ℤ◌
next_array-Further spacing s true positive word range =
    rw (wrap_i32_id (s -ℤ pos (span_of spacing)) (ground arith))
      (omega (arith, sub_ℕ-parts (pos_part s + 0) (neg_part s + span_of spacing)))
next_array-Further spacing s false positive word range =
    rw (wrap_i32_id (s +ℤ pos (span_of spacing)) (ground arith))
      (omega (arith, sub_ℕ-parts (pos_part s + span_of spacing) (neg_part s + 0)))

-- A load changes neither the starts nor the spacing.
pub load_array-same :
    (w : Walker) (s : ℤ)
    → ((load_array w s).0.starts ≡ w.starts) × ((load_array w s).0.tick_spacing ≡ w.tick_spacing)
unfolding load_array
load_array-same w s = elim (Bool-cases (w.loaded && eqb_ℤ w.start s)) [
  | inl held ↦ rw held (refl, refl)
  | inr fresh ↦ rw fresh (hold-same w s (w.load s))
]

-- A run that ends, with a result or an error.
Ends : Option (Result (Walker × Option TickBoundary)) → Type 0
Ends run = (r : Result (Walker × Option TickBoundary)) × (run ≡ some r)

after_search-Ends :
    (rest : ℤ × ℤ → Option (Result (Walker × Option TickBoundary))) (w : Walker) (s : ℤ) (z : Bool)
    (found : Result (Option ℕ))
    → Ends (rest (next_array w.tick_spacing s z))
    → Ends (after_search rest w s z found)
unfolding after_search Ends
after_search-Ends rest w s z (err e) h = (err e, refl)
after_search-Ends rest w s z (ok (some offset)) h = (_, refl)
after_search-Ends rest w s z (ok none) h = elim (Option-cases (edge_of w s z)) [
  | inl onward ↦ let (r, run) = h in (r, rw (after_search, onward) run)
  | inr (b, edge) ↦ (ok (w, some b), rw (after_search, edge) refl)
]

visit_held-Ends :
    (rest : Walker → ℤ × ℤ → Option (Result (Walker × Option TickBoundary))) (p : Walker × Bool)
    (s tick : ℤ) (z : Bool)
    → Ends (rest p.0 (next_array p.0.tick_spacing s z))
    → Ends (visit_held rest p s tick z)
unfolding visit_held Ends
visit_held-Ends rest (w, false) s tick z h = (ok (w, none), refl)
visit_held-Ends rest (w, true) s tick z h = after_search-Ends (rest w) w s z _ h

-- As many rounds as there are starts left, and one more, are enough.
next_loop-Ends :
    (fuel : ℕ) (w : Walker) (p : ℤ × ℤ) (z : Bool)
    → InRange w.starts
    → 0 < w.tick_spacing
    → w.tick_spacing < 2 ^ 16
    → count_ahead z w.starts p.0 < fuel
    → Ends (next_loop fuel w p z)
unfolding next_loop Ends
next_loop-Ends zero w p z range positive word enough = absurd (omega arith)
next_loop-Ends (suc fuel) w (s, tick) z range positive word enough =
    elim (Bool-cases (reachable w.starts s)) [
      | inr past ↦ (ok (w, none), rw (next_loop, past) refl)
      | inl there ↦
          let held = load_array w s in
          let (same_starts, same_spacing) = load_array-same w s in
          let further =
            next_array-Further w.tick_spacing s z positive word
              (reachable-InRange w.starts s range there) in
          let fewer = count_ahead-lt z w.starts s (next_array w.tick_spacing s z).0 there further in
          let (r, run) =
            visit_held-Ends (λ w' q. next_loop fuel w' q z) held s tick z
              (next_loop-Ends fuel held.0 (next_array held.0.tick_spacing s z) z
                (subst InRange (sym same_starts) range) (rw same_spacing positive)
                (rw same_spacing word) (rw (same_starts, same_spacing) (omega (arith, fewer)))) in
          (r, rw (next_loop, there) run)
    ]

-- `Next` returns: over at most three starts in range, for a spacing that is a uint16 and not zero, from
-- any tick and whatever the loader answers, its four rounds are enough.
pub next-ends :
    (w : Walker) (from_tick : ℤ) (z : Bool)
    → InRange w.starts
    → length w.starts ≤ 3
    → 0 < w.tick_spacing
    → w.tick_spacing < 2 ^ 16
    → (r : Result (Walker × Option TickBoundary)) × (next w from_tick z ≡ some r)
unfolding next Ends
next-ends w from_tick z range few positive word = elim (Bool-cases (is_some w.failure)) [
  | inl failed ↦ (ok (w, none), rw failed refl)
  | inr sound ↦ elim (Result-cases (first_array from_tick w.tick_spacing z)) [
    | inr (e, panics) ↦ (err e, rw (sound, panics) refl)
    | inl (p, first) ↦
        let (r, run) =
          next_loop-Ends 4 w p z range positive word
            (omega (arith, few, count_ahead-le_length z w.starts p.0)) in
        (r, rw (sound, first) run)
  ]
]
