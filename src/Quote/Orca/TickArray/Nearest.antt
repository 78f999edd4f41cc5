-- ===== src/Quote/Orca/TickArray/Nearest.antt =====
-- quote/orca/tick_array.go: the tick that a search of the held array finds.
use soldex.Base.{
  ℕ, zero, suc, ◌+◌, ◌-◌, ◌≤◌, ◌<◌, ◌≡◌, refl, ap, ◌∙◌, inl, inr, arith, Bool, true, false, Option,
  none, some, List, [], ◌∷◌, if◌then◌else◌, Result, ok, >>=-eq-ok, ok-injective, Bool-cases,
  Option-cases,
}
use mathlib.Core.Path.{subst}
use soldex.Base.Int.{pos}
use soldex.Models.Bytes.{length}
use soldex.Models.Whirlpool.{ticks_per_array, tick_of}
use soldex.Quote.Raydium.TickArray.{get_elem?}
use soldex.Quote.Orca.TickArray.{ArrayTick, TickArray, search_down, search_up, search_array}

-- There is a tick at an offset, and it is as given.
abbrev pub IsTick : TickArray → (offset : ℕ) → Bool → Type 0
IsTick ticks offset initialized =
    (t : ArrayTick) × (get_elem? ticks offset ≡ some t) × (t.initialized ≡ initialized)

-- None of `count` ticks from an offset on is initialized.
unfoldable pub IsClear : TickArray → (offset count : ℕ) → Type 0
IsClear ticks offset zero = Unit
IsClear ticks offset (suc count) = IsTick ticks offset false × IsClear ticks (offset + 1) count

-- The answer of a search from an offset, down or up: the nearest initialized tick, or that there is none.
unfoldable pub IsNearest : TickArray → (offset : ℕ) → Bool → Option ℕ → Type 0
IsNearest ticks offset true none = IsClear ticks 0 (offset + 1)
IsNearest ticks offset true (some i) =
    (i ≤ offset) × IsTick ticks i true × IsClear ticks (i + 1) (offset - i)
IsNearest ticks offset false none = IsClear ticks offset (ticks_per_array - offset)
IsNearest ticks offset false (some i) =
    (offset ≤ i) × (i < ticks_per_array) × IsTick ticks i true × IsClear ticks offset (i - offset)

tick_of-ok :
    (ticks : TickArray) (offset : ℕ) {t : ArrayTick}
    → tick_of ticks (pos offset) ≡ ok t
    → get_elem? ticks offset ≡ some t
unfolding tick_of
tick_of-ok ticks offset h = elim (Option-cases (get_elem? ticks offset)) [
  | inl out ↦ absurd (let same = rw (tick_of, out) at h in cc)
  | inr (t, found) ↦ found ∙ ap some (ok-injective (rw (tick_of, found) at h))
]

IsClear-snoc :
    (ticks : TickArray) (offset count : ℕ)
    → IsClear ticks offset count
    → IsTick ticks (offset + count) false
    → IsClear ticks offset (suc count)
unfolding IsClear
IsClear-snoc ticks offset zero clear t = (subst (λ n. IsTick ticks n false) (omega arith) t, tt)
IsClear-snoc ticks offset (suc count) (here, there) t = (
  here,
  IsClear-snoc ticks (offset + 1) count there (subst (λ n. IsTick ticks n false) (omega arith) t),
)

IsClear-of :
    (ticks : TickArray) (offset m n : ℕ) → m ≡ n → IsClear ticks offset m → IsClear ticks offset n
IsClear-of ticks offset m n e h = subst (IsClear ticks offset) e h

-- A tick that is passed on the way down, and on the way up.
down_past :
    (ticks : TickArray) (i : ℕ) (found : Option ℕ)
    → IsTick ticks (suc i) false
    → IsNearest ticks i true found
    → IsNearest ticks (suc i) true found
unfolding IsNearest
down_past ticks i none bare h =
    IsClear-of ticks 0 (suc (i + 1)) (suc i + 1) (omega arith)
      (IsClear-snoc ticks 0 (i + 1) h (subst (λ n. IsTick ticks n false) (omega arith) bare))
down_past ticks i (some k) bare (le, set, clear) = (
  omega arith,
  set,
  IsClear-of ticks (k + 1) (suc (i - k)) (suc i - k) (omega arith) (
      IsClear-snoc ticks (k + 1) (i - k) clear
        (subst (λ n. IsTick ticks n false) (omega arith) bare)),
)

up_past :
    (ticks : TickArray) (i : ℕ) (found : Option ℕ)
    → i < ticks_per_array
    → IsTick ticks i false
    → IsNearest ticks (i + 1) false found
    → IsNearest ticks i false found
unfolding IsNearest IsClear
up_past ticks i none room bare h =
    IsClear-of ticks i (suc (ticks_per_array - (i + 1))) (ticks_per_array - i) (omega arith)
      (bare, h)
up_past ticks i (some k) room bare (le, lt, set, clear) = (
  omega arith,
  lt,
  set,
  IsClear-of ticks i (suc (k - (i + 1))) (k - i) (omega arith) (bare, clear),
)

search_down-IsNearest :
    (ticks : TickArray) (offset : ℕ) {found : Option ℕ}
    → search_down ticks offset ≡ ok found
    → IsNearest ticks offset true found
unfolding search_down IsNearest IsClear
search_down-IsNearest ticks zero h =
    let (t, read, h₁) = >>=-eq-ok (tick_of ticks (pos 0)) _ h in
    let there = tick_of-ok ticks 0 read in
    elim (Bool-cases t.initialized) [
      | inl set ↦
          subst (IsNearest ticks 0 true) (ok-injective (rw set at h₁))
            (omega arith, (t, there, set), tt)
      | inr bare ↦
          subst (IsNearest ticks 0 true) (ok-injective (rw bare at h₁)) ((t, there, bare), tt)
    ]
search_down-IsNearest ticks (suc i) {found} h =
    let (t, read, h₁) = >>=-eq-ok (tick_of ticks (pos (suc i))) _ h in
    let there = tick_of-ok ticks (suc i) read in
    elim (Bool-cases t.initialized) [
      | inl set ↦ subst (IsNearest ticks (suc i) true) (ok-injective (rw set at h₁)) (
        omega arith,
        (t, there, set),
        IsClear-of ticks (suc i + 1) 0 (suc i - suc i) (omega arith) tt,
      )
      | inr bare ↦
          down_past ticks i found (t, there, bare) (search_down-IsNearest ticks i (rw bare at h₁))
    ]

search_up-IsNearest :
    (ticks : TickArray) (count offset : ℕ) {found : Option ℕ}
    → count ≡ ticks_per_array - offset
    → search_up ticks count offset ≡ ok found
    → IsNearest ticks offset false found
unfolding search_up IsNearest IsClear
search_up-IsNearest ticks zero offset e h =
    subst (IsNearest ticks offset false) (ok-injective h)
      (IsClear-of ticks offset 0 (ticks_per_array - offset) e tt)
search_up-IsNearest ticks (suc count) offset {found} e h =
    let (t, read, h₁) = >>=-eq-ok (tick_of ticks (pos offset)) _ h in
    let there = tick_of-ok ticks offset read in
    elim (Bool-cases t.initialized) [
      | inl set ↦ subst (IsNearest ticks offset false) (ok-injective (rw set at h₁)) (
        omega arith,
        omega (arith, e),
        (t, there, set),
        IsClear-of ticks offset 0 (offset - offset) (omega arith) tt,
      )
      | inr bare ↦
          up_past ticks offset found (omega (arith, e)) (t, there, bare)
            (search_up-IsNearest ticks count (offset + 1) (omega (arith, e)) (rw bare at h₁))
    ]

get_elem?-some {ℓ} :
    {A : Type ℓ} (xs : List A) (i : ℕ) → i < length xs → (x : A) × (get_elem? xs i ≡ some x)
unfolding get_elem? length
get_elem?-some [] i h = absurd (omega arith)
get_elem?-some (x ∷ xs) zero h = (x, refl)
get_elem?-some (x ∷ xs) (suc i) h = get_elem?-some xs i (omega arith)

tick_of-in :
    (ticks : TickArray) (i : ℕ)
    → i < length ticks
    → (t : ArrayTick) × (tick_of ticks (pos i) ≡ ok t)
unfolding tick_of
tick_of-in ticks i h = let (t, there) = get_elem?-some ticks i h in (t, rw (tick_of, there) refl)

Returns : Result (Option ℕ) → Type 0
Returns r = (found : Option ℕ) × (r ≡ ok found)

search_down-Returns :
    (ticks : TickArray) (offset : ℕ) → offset < length ticks → Returns (search_down ticks offset)
unfolding search_down Returns
search_down-Returns ticks zero h =
    let (t, read) = tick_of-in ticks 0 h in (if t.initialized then some 0 else none, rw read refl)
search_down-Returns ticks (suc i) h =
    let (t, read) = tick_of-in ticks (suc i) h in
    elim (Bool-cases t.initialized) [
      | inl set ↦ (some (suc i), rw (read, set) refl)
      | inr bare ↦
          let (found, run) = search_down-Returns ticks i (omega arith) in
          (found, rw (read, bare) run)
    ]

search_up-Returns :
    (ticks : TickArray) (count offset : ℕ)
    → offset + count ≤ length ticks
    → Returns (search_up ticks count offset)
unfolding search_up Returns
search_up-Returns ticks zero offset h = (none, refl)
search_up-Returns ticks (suc count) offset h =
    let (t, read) = tick_of-in ticks offset (omega arith) in
    elim (Bool-cases t.initialized) [
      | inl set ↦ (some offset, rw (read, set) refl)
      | inr bare ↦
          let (found, run) = search_up-Returns ticks count (offset + 1) (omega arith) in
          (found, rw (read, bare) run)
    ]

-- A search of an array of 88 ticks, from an offset of it in either direction, returns the nearest
-- initialized tick, or that every tick on its way is uninitialized.
pub search_array-IsNearest :
    (ticks : TickArray) (offset : ℕ) (z : Bool)
    → length ticks ≡ ticks_per_array
    → offset < ticks_per_array
    → (found : Option ℕ) × (search_array ticks (pos offset) z ≡ ok found)
      × IsNearest ticks offset z found
unfolding search_array Returns
search_array-IsNearest ticks offset true full within =
    let (found, run) = search_down-Returns ticks offset (omega (arith, full)) in
    (found, run, search_down-IsNearest ticks offset run)
search_array-IsNearest ticks offset false full within =
    let (found, run) =
      search_up-Returns ticks (ticks_per_array - offset) offset (omega (arith, full)) in
    (found, run, search_up-IsNearest ticks (ticks_per_array - offset) offset refl run)
