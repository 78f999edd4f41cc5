-- ===== src/Math/Dlmm/Price/Key.antt =====
-- math/dlmm/price_cache.go: `priceKey` packs its two arguments without loss, and an entry of the
-- cache answers for one pair of them only.
use mathlib.Core.Path.{subst}
use soldex.Base.{ℕ, ◌≡◌, refl, sym, ap, ◌∙◌, inl, inr, arith, some, ◌==◌, ok, Bool-cases, ==→eq}
use soldex.Base.Int.{ℤ, word32, signed32, IsI32, signed32-word32, word32-lt}
use soldex.Math.Dlmm.Price.{
  compute_price_from_id, PriceEntry, PriceCache, price_key, price_slot, entry_hit, store_entry,
  empty_cache,
}

-- The two arguments can be read back from the key.
pub price_key-injective :
    (i j : ℤ) (s t : ℕ) → IsI32 i → IsI32 j → price_key i s ≡ price_key j t → (i ≡ j) × (s ≡ t)
unfolding price_key
price_key-injective i j s t hi hj h =
    let a = word32-lt i in
    let b = word32-lt j in
    let words : word32 i ≡ word32 j = omega arith in
    (sym (signed32-word32 i hi) ∙ ap signed32 words ∙ signed32-word32 j hj, omega arith)

-- An entry with a value holds the price of the arguments that its key packs.
abbrev pub IsSoundEntry : PriceEntry → Type 0
IsSoundEntry entry =
    (v : ℕ)
    → entry.value ≡ some v
    → (i : ℤ) × (s : ℕ) × IsI32 i × (entry.key ≡ price_key i s) × (compute_price_from_id i s ≡ ok v)

abbrev pub IsSound : PriceCache → Type 0
IsSound cache = (slot : ℕ) → IsSoundEntry (cache slot)

pub empty_cache-IsSound : IsSound empty_cache
empty_cache-IsSound slot v h = cc

-- A hit is the price.
pub entry_hit-ok :
    (entry : PriceEntry) (i : ℤ) (s v : ℕ)
    → IsSoundEntry entry
    → IsI32 i
    → entry_hit entry (price_key i s) ≡ some v
    → compute_price_from_id i s ≡ ok v
unfolding entry_hit
entry_hit-ok entry i s v sound hi h = elim (Bool-cases (entry.key == price_key i s)) [
  | inl same ↦
      let (j, t, hj, key, e) = sound v (rw same at h) in
      let (ij, st) = price_key-injective j i t s hj hi (sym key ∙ ==→eq _ _ same) in
      subst (λ n. compute_price_from_id i n ≡ ok v) st
        (subst (λ n. compute_price_from_id n t ≡ ok v) ij e)
  | inr other ↦ absurd (cc (rw other at h))
]

pub store_entry-IsSound :
    (cache : PriceCache) (i : ℤ) (s v : ℕ)
    → IsSound cache
    → IsI32 i
    → compute_price_from_id i s ≡ ok v
    → IsSound (store_entry cache (price_key i s) v)
unfolding store_entry
store_entry-IsSound cache i s v sound hi e slot =
    elim (Bool-cases (slot == price_slot (price_key i s))) [
      | inl here ↦ rw here (λ w h. (i, s, hi, refl, cc))
      | inr there ↦ rw there (sound slot)
    ]
