-- ===== src/Math/Dlmm/Price/Lookups.antt =====
-- math/dlmm/price_cache.go: any number of goroutines in `cachedPriceFromID` at the same time.
-- A goroutine runs in two steps, the read under the read lock, and the computation with the write
-- under the write lock; between them the others may run.
use mathlib.Core.Path.{subst}
use soldex.Base.{
  ℕ, ◌≡◌, refl, sym, inl, inr, Option, none, some, ◌==◌, if◌then◌else◌, Result, ok, err, Bool-cases,
}
use soldex.Base.Int.{ℤ, IsI32}
use soldex.Math.Dlmm.Price.{
  compute_price_from_id, PriceCache, price_key, price_slot, entry_hit, read_entry, fill_entry,
  finish_lookup, cached_price_from_id, empty_cache,
}
use soldex.Math.Dlmm.Price.Key.{IsSound, entry_hit-ok, store_entry-IsSound, empty_cache-IsSound}

-- Where a goroutine stands in its lookup.
pub data Phase : Type 0 where
  idle : Phase
  asked missed : ℤ → ℕ → Phase
  answered : ℤ → ℕ → Result ℕ → Phase

-- The shared cache and the goroutines, by number.
pub record System : Type 0 where
  pub cache : PriceCache
  pub phases : ℕ → Phase

unfoldable pub after_read : ℤ → ℕ → Option ℕ → Phase
after_read active_id bin_step none = missed active_id bin_step
after_read active_id bin_step (some value) = answered active_id bin_step (ok value)

-- One step of a goroutine.
unfoldable pub lookup_step : PriceCache → Phase → PriceCache × Phase
lookup_step cache idle = (cache, idle)
lookup_step cache (answered active_id bin_step r) = (cache, answered active_id bin_step r)
lookup_step cache (asked active_id bin_step) =
    let key = price_key active_id bin_step in
    (cache, after_read active_id bin_step (entry_hit (read_entry cache key) key))
lookup_step cache (missed active_id bin_step) =
    let (r, cache') =
      fill_entry cache (price_key active_id bin_step) (compute_price_from_id active_id bin_step) in
    (cache', answered active_id bin_step r)

unfoldable pub set_phase : System → ℕ → PriceCache × Phase → System
set_phase s t (cache, phase) = record {
  cache = cache;
  phases = λ u. if u == t then phase else s.phases u;
}

-- The states that calls and steps in any order lead to from the empty cache.
pub data Reachable : System → Type 0 where
  start : Reachable (record { cache = empty_cache; phases = λ t. idle })
  call :
      (s : System) (t : ℕ) (active_id : ℤ) (bin_step : ℕ)
      → Reachable s
      → IsI32 active_id
      → Reachable (set_phase s t (s.cache, asked active_id bin_step))
  step :
      (s : System) (t : ℕ)
      → Reachable s
      → Reachable (set_phase s t (lookup_step s.cache (s.phases t)))

-- What holds of a goroutine: its answer is the price.
abbrev pub IsSoundPhase : Phase → Type 0
IsSoundPhase idle = ℕ
IsSoundPhase (asked i s) = IsI32 i
IsSoundPhase (missed i s) = IsI32 i
IsSoundPhase (answered i s r) = IsI32 i × (r ≡ compute_price_from_id i s)

fill_entry-IsSound :
    (cache : PriceCache) (i : ℤ) (s : ℕ) (r : Result ℕ)
    → IsSound cache
    → IsI32 i
    → r ≡ compute_price_from_id i s
    → IsSound ((fill_entry cache (price_key i s) r).1)
      × ((fill_entry cache (price_key i s) r).0 ≡ compute_price_from_id i s)
unfolding fill_entry
fill_entry-IsSound cache i s (err e) sound hi same = (sound, same)
fill_entry-IsSound cache i s (ok v) sound hi same =
    (store_entry-IsSound cache i s v sound hi (sym same), same)

after_read-IsSound :
    (i : ℤ) (s : ℕ) (hit : Option ℕ)
    → IsI32 i
    → ((v : ℕ) → hit ≡ some v → compute_price_from_id i s ≡ ok v)
    → IsSoundPhase (after_read i s hit)
unfolding after_read
after_read-IsSound i s none hi h = hi
after_read-IsSound i s (some v) hi h = (hi, sym (h v refl))

read_hit-ok :
    (cache : PriceCache) (i : ℤ) (s : ℕ)
    → IsSound cache
    → IsI32 i
    → (v : ℕ) → entry_hit (read_entry cache (price_key i s)) (price_key i s) ≡ some v
    → compute_price_from_id i s ≡ ok v
unfolding read_entry
read_hit-ok cache i s sound h v e =
    entry_hit-ok (cache (price_slot (price_key i s))) i s v (sound (price_slot (price_key i s))) h e

lookup_step-IsSound :
    (cache : PriceCache) (phase : Phase)
    → IsSound cache
    → IsSoundPhase phase
    → IsSound (lookup_step cache phase).0 × IsSoundPhase (lookup_step cache phase).1
unfolding lookup_step
lookup_step-IsSound cache idle sound h = (sound, h)
lookup_step-IsSound cache (answered i s r) sound h = (sound, h)
lookup_step-IsSound cache (asked i s) sound h = (
  sound,
  after_read-IsSound i s (entry_hit (read_entry cache (price_key i s)) (price_key i s)) h
      (read_hit-ok cache i s sound h),
)
lookup_step-IsSound cache (missed i s) sound h =
    let (good, same) = fill_entry-IsSound cache i s (compute_price_from_id i s) sound h refl in
    (good, (h, same))

-- What holds of the whole.
abbrev pub IsSoundSystem : System → Type 0
IsSoundSystem s = IsSound s.cache × ((t : ℕ) → IsSoundPhase (s.phases t))

set_phase-IsSound :
    (s : System) (t : ℕ) (c : PriceCache × Phase)
    → IsSound c.0
    → IsSoundPhase c.1
    → IsSoundSystem s
    → IsSoundSystem (set_phase s t c)
unfolding set_phase
set_phase-IsSound s t (cache, phase) sound h all = (
  sound,
  λ u. elim (Bool-cases (u == t)) [ inl here ↦ rw here h | inr there ↦ rw there (all.1 u) ],
)

reachable-IsSound : {s : System} → Reachable s → IsSoundSystem s
reachable-IsSound start = (empty_cache-IsSound, λ t. 0)
reachable-IsSound (call s t i k r hi) =
    let all = reachable-IsSound r in set_phase-IsSound s t (s.cache, asked i k) all.0 hi all
reachable-IsSound (step s t r) =
    let all = reachable-IsSound r in
    let (sound, h) = lookup_step-IsSound s.cache (s.phases t) all.0 (all.1 t) in
    set_phase-IsSound s t (lookup_step s.cache (s.phases t)) sound h all

-- Whatever the interleaving of any number of lookups that share the cache, collisions of its slots
-- included, each lookup that has ended has answered what the computation of the price from its own
-- arguments answers, a price or the error.
pub reachable-answers :
    {s : System} (t : ℕ) (i : ℤ) (k : ℕ) (r : Result ℕ)
    → Reachable s
    → s.phases t ≡ answered i k r
    → r ≡ compute_price_from_id i k
reachable-answers {s} t i k r h e =
    let sound : IsSoundPhase (answered i k r) = subst IsSoundPhase e ((reachable-IsSound h).1 t) in
    sound.1

finish_lookup-IsSound :
    (cache : PriceCache) (i : ℤ) (k : ℕ) (hit : Option ℕ)
    → IsSound cache
    → IsI32 i
    → ((v : ℕ) → hit ≡ some v → compute_price_from_id i k ≡ ok v)
    → ((finish_lookup cache i k hit).0 ≡ compute_price_from_id i k)
      × IsSound (finish_lookup cache i k hit).1
      × (lookup_step cache (after_read i k hit)
          ≡ ((finish_lookup cache i k hit).1, answered i k (finish_lookup cache i k hit).0))
unfolding finish_lookup lookup_step after_read
finish_lookup-IsSound cache i k none sound hi h =
    let (good, same) = fill_entry-IsSound cache i k (compute_price_from_id i k) sound hi refl in
    (same, good, refl)
finish_lookup-IsSound cache i k (some v) sound hi h = (sym (h v refl), sound, refl)

-- A lookup with nothing in between, from a cache that holds right prices: its answer is the computed
-- price or error, the cache it leaves holds right prices, and it is what a goroutine's two steps do.
cached_price_from_id-IsSound :
    (cache : PriceCache) (i : ℤ) (k : ℕ)
    → IsSound cache
    → IsI32 i
    → ((cached_price_from_id cache i k).0 ≡ compute_price_from_id i k)
      × IsSound (cached_price_from_id cache i k).1
      × (lookup_step cache (lookup_step cache (asked i k)).1
          ≡ ((cached_price_from_id cache i k).1, answered i k (cached_price_from_id cache i k).0))
unfolding cached_price_from_id lookup_step
cached_price_from_id-IsSound cache i k sound hi =
    finish_lookup-IsSound cache i k (entry_hit (read_entry cache (price_key i k)) (price_key i k))
      sound hi (read_hit-ok cache i k sound hi)
