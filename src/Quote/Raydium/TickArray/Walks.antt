-- ===== src/Quote/Raydium/TickArray/Walks.antt =====
-- quote/raydium/tick_array.go: `Next` returns.
use mathlib.Core.Path.{subst}
use soldex.Base.{
  ℕ, zero, suc, ◌+◌, ◌-◌, ◌≤◌, ◌<◌, ◌≡◌, refl, ◌∙◌, inl, inr, arith, Bool, true, false, ◌||◌,
  Option, none, some, List, [], ◌∷◌, ◌++◌, ◌==◌, if◌then◌else◌, Result, ok, err, >>=-eq-ok,
  ok-injective, Bool-cases, Option-cases,
}
use soldex.Base.Int.{ℤ, pos, eqb_ℤ}
use soldex.Models.Bytes.{length}
use soldex.Quote.Raydium.State.{TickBoundary}
use soldex.Quote.Raydium.TickArray.{
  TickArray, Walker, search, get_elem?, start_to_load, take_loaded, is_some, load_round, go_on,
  load_rounds, array, visit_array, next,
}

-- At most `max` arrays are loaded, and the walk is at one of them or at the one after.
pub record IsWithin (max : ℕ) (w : Walker) : Type 0 where
  pub limit : w.max_arrays ≡ pos max
  pub loaded : length w.arrays ≤ max
  pub place : w.current ≤ max

-- A load moves the walk to no other array.
pub record Loads (max : ℕ) (w w' : Walker) : Type 0 where
  pub within : IsWithin max w'
  pub same : w'.current ≡ w.current

length-append {ℓ} : {A : Type ℓ} (xs : List A) (x : A) → length (xs ++ x ∷ []) ≡ length xs + 1
unfolding length
length-append [] x = refl
length-append (y ∷ ys) x = omega (arith, length-append ys x)

take_loaded-Loads :
    (max : ℕ) (w : Walker) (r : Result (Option TickArray))
    → IsWithin max w
    → length w.arrays < max
    → Loads max w (take_loaded w r).0
unfolding take_loaded
take_loaded-Loads max w (err e) h room = record {
  within = record { limit = h.limit; loaded = h.loaded; place = h.place };
  same = refl;
}
take_loaded-Loads max w (ok none) h room = record {
  within = record { limit = h.limit; loaded = h.loaded; place = h.place };
  same = refl;
}
take_loaded-Loads max w (ok (some a)) h room = record {
  within = record {
    limit = h.limit;
    loaded = omega (arith, length-append w.arrays a);
    place = h.place;
  };
  same = refl;
}

Loads-self : (max : ℕ) (w : Walker) → IsWithin max w → Loads max w w
Loads-self max w h = record { within = h; same = refl }

Loads-trans : (max : ℕ) (w v u : Walker) → Loads max w v → Loads max v u → Loads max w u
Loads-trans max w v u h k = record { within = k.within; same = k.same ∙ h.same }

or_false : (a b : Bool) → (a || b) ≡ false → b ≡ false
or_false a b h = ground arith

-- Below the limit there is room for an array.
has_room :
    (max : ℕ) (w : Walker)
    → IsWithin max w
    → (w.done || is_some w.failure || eqb_ℤ (pos (length w.arrays)) w.max_arrays) ≡ false
    → length w.arrays < max
has_room max w h more =
    let last = or_false (w.done || is_some w.failure) _ more in
    let apart : length w.arrays == max ≡ false = rw h.limit at last in ground (arith, h.loaded)

load_round-Loads :
    (max : ℕ) (w : Walker) (z : Bool) {r : Walker × Bool}
    → IsWithin max w
    → load_round w z ≡ ok r
    → Loads max w r.0
unfolding load_round
load_round-Loads max w z h run =
    elim (Bool-cases (w.done || is_some w.failure || eqb_ℤ (pos (length w.arrays)) w.max_arrays)) [
      | inl stop ↦
          let Good : Walker × Bool → Type 0 = λ q. Loads max w q.0 in
          subst Good (ok-injective (rw stop at run)) (Loads-self max w h)
      | inr more ↦
          let Good : Walker × Bool → Type 0 = λ q. Loads max w q.0 in
          let (start, e, loaded) = >>=-eq-ok (start_to_load w z) _ (rw more at run) in
          subst Good (ok-injective loaded)
            (take_loaded-Loads max w (w.load start z) h (has_room max w h more))
    ]

go_on-Loads :
    (max : ℕ) (w : Walker) (rest : Walker → Result (Walker × Bool)) (q : Walker × Bool)
    {r : Walker × Bool}
    → Loads max w q.0
    → ((v : Walker) → IsWithin max v → rest v ≡ ok r → Loads max v r.0)
    → go_on rest q ≡ ok r
    → Loads max w r.0
unfolding go_on
go_on-Loads max w rest (v, true) {r} k onward run =
    Loads-trans max w v r.0 k (onward v k.within run)
go_on-Loads max w rest (v, false) k onward run =
    let Good : Walker × Bool → Type 0 = λ q. Loads max w q.0 in subst Good (ok-injective run) k

load_rounds-Loads :
    (missing max : ℕ) (w : Walker) (z : Bool) {r : Walker × Bool}
    → IsWithin max w
    → load_rounds missing w z ≡ ok r
    → Loads max w r.0
unfolding load_rounds
load_rounds-Loads zero max w z h run =
    let Good : Walker × Bool → Type 0 = λ q. Loads max w q.0 in
    subst Good (ok-injective run) (Loads-self max w h)
load_rounds-Loads (suc missing) max w z h run =
    let (q, e, rest) = >>=-eq-ok (load_round w z) _ run in
    go_on-Loads max w (λ v. load_rounds missing v z) q (load_round-Loads max w z h e)
      (λ v within ran. load_rounds-Loads missing max v z within ran) rest

get_elem?-lt {ℓ} :
    {A : Type ℓ} (xs : List A) (i : ℕ) {x : A} → get_elem? xs i ≡ some x → i < length xs
unfolding get_elem? length
get_elem?-lt [] i h = cc
get_elem?-lt (x ∷ xs) zero h = omega arith
get_elem?-lt (x ∷ xs) (suc i) h = omega (arith, get_elem?-lt xs i h)

if-some {ℓ} :
    {A : Type ℓ} (t : Bool) (o : Option A) {x : A} → (if t then o else none) ≡ some x → o ≡ some x
if-some true o h = h
if-some false o h = cc

array-Loads :
    (max : ℕ) (w : Walker) (i : ℕ) (z : Bool) (w' : Walker) (found : Option TickArray)
    → IsWithin max w
    → array w i z ≡ ok (w', found)
    → Loads max w w' × ((a : TickArray) → found ≡ some a → i < length w'.arrays)
unfolding array
array-Loads max w i z w' found h run =
    let ((w₁, complete), e, rest) = >>=-eq-ok (load_rounds (i + 1 - length w.arrays) w z) _ run in
    let k = load_rounds-Loads (i + 1 - length w.arrays) max w z h e in
    let same = ok-injective rest in
    let Good : Walker × Option TickArray → Type 0 =
      λ q. Loads max w q.0 × ((a : TickArray) → q.1 ≡ some a → i < length (q.0).arrays) in
    subst Good same
      (k, λ a there. get_elem?-lt w₁.arrays i (if-some complete (get_elem? w₁.arrays i) there))

visit_array-ends :
    (max : ℕ) (w : Walker) (from_tick : ℤ) (z : Bool)
    (rest : Walker → Option (Result (Walker × Option TickBoundary)))
    (r : Result (Walker × Option TickArray))
    → ((w' : Walker) (a : TickArray)
        → r ≡ ok (w', some a)
        → (q : Result (Walker × Option TickBoundary)) × (rest
              (record w' { current = w'.current + 1 })
            ≡ some q))
    → (q : Result (Walker × Option TickBoundary)) × (visit_array rest from_tick z r ≡ some q)
unfolding visit_array
visit_array-ends max w from_tick z rest (err e) ends = (_, refl)
visit_array-ends max w from_tick z rest (ok (w', none)) ends = (_, refl)
visit_array-ends max w from_tick z rest (ok (w', some a)) ends =
    elim (Option-cases (search w' a from_tick z)) [
      | inl missed ↦ let (q, e) = ends w' a refl in (q, rw (visit_array, missed) e)
      | inr (b, found) ↦ (ok (w', some b), rw (visit_array, found) refl)
    ]

-- For a limit of `max` arrays, from any walker within it, `Next` returns, whatever the loader answers:
-- more rounds than there are arrays left to the limit are enough.
pub next-ends :
    (fuel max : ℕ) (w : Walker) (from_tick : ℤ) (z : Bool)
    → IsWithin max w
    → max - w.current < fuel
    → (q : Result (Walker × Option TickBoundary)) × (next fuel w from_tick z ≡ some q)
unfolding next
next-ends zero max w from_tick z h enough = absurd (omega arith)
next-ends (suc fuel) max w from_tick z h enough =
    visit_array-ends max w from_tick z (λ w'. next fuel w' from_tick z) (array w w.current z)
      (λ w' a run.
        let (k, there) = array-Loads max w w.current z w' (some a) h run in
        let less = there a refl in
        next-ends fuel max (record w' { current = w'.current + 1 }) from_tick z
          (record {
            limit = k.within.limit;
            loaded = k.within.loaded;
            place = omega (arith, less, k.same, k.within.loaded);
          })
          (omega (arith, less, k.same, k.within.loaded)))
