-- ===== src/Math/Dlmm/Price.antt =====
-- math/dlmm/price_math.go and price_cache.go: the price of a bin, and the direct-mapped cache of
-- 2 ^ 12 slots in front of it.
-- The cache is a function from slots to entries. `cached_price_from_id` runs with no other goroutine
-- between; its steps under the lock are `read_entry` and `store_entry`, which `Lookups` interleaves.
pub mod Key
pub mod Lookups
use soldex.Base.{
  ℕ, ◌+◌, ◌-◌, ◌*◌, ◌/◌, ◌%◌, ◌^◌, Option, none, some, ◌==◌, if◌then◌else◌, Result, ok, err, ◌>>=◌,
}
use soldex.Base.Int.{ℤ, word32}
use soldex.Base.Words.{max_u128, u64_mod}
use soldex.Math.Common.{nat, div_floor, add_checked}
use soldex.Math.Dlmm.Pow.{one, pow, scale_offset}

abbrev pub basis_point_max : ℕ
basis_point_max = 10_000

unfoldable pub compute_price_from_id : ℤ → ℕ → Result ℕ
compute_price_from_id active_id bin_step = do
  bps ← div_floor (nat (bin_step * 2 ^ scale_offset)) (nat basis_point_max)
  base ← add_checked (nat one) (nat bps) max_u128
  pow (nat base) active_id

abbrev pub price_cache_bits : ℕ
price_cache_bits = 12

abbrev pub price_cache_size : ℕ
price_cache_size = 2 ^ price_cache_bits

-- An entry that was never stored has the value nil.
pub record PriceEntry : Type 0 where
  pub key : ℕ
  pub value : Option ℕ

abbrev pub PriceCache : Type 0
PriceCache = ℕ → PriceEntry

-- The two words of the key do not overlap, so `|` is a sum.
unfoldable pub price_key : ℤ → ℕ → ℕ
unfolding word32
price_key active_id bin_step = word32 active_id + bin_step * 2 ^ 32

unfoldable pub price_slot : ℕ → ℕ
price_slot key = (key * 0x9E3779B97F4A7C15) % u64_mod / 2 ^ (64 - price_cache_bits)

-- The cached value, if the entry holds one for this key.
unfoldable pub entry_hit : PriceEntry → ℕ → Option ℕ
entry_hit entry key = if entry.key == key then entry.value else none

-- The two critical sections: the read, and the write of a computed value.
unfoldable pub read_entry : PriceCache → ℕ → PriceEntry
read_entry cache key = cache (price_slot key)

unfoldable pub store_entry : PriceCache → ℕ → ℕ → PriceCache
store_entry cache key value slot =
    if slot == price_slot key then record { key = key; value = some value } else cache slot

abbrev pub empty_cache : PriceCache
empty_cache slot = record { key = 0; value = none }

-- The part of a lookup after a miss.
unfoldable pub fill_entry : PriceCache → ℕ → Result ℕ → Result ℕ × PriceCache
fill_entry cache key (err e) = (err e, cache)
fill_entry cache key (ok value) = (ok value, store_entry cache key value)

-- The part of a lookup after the read.
unfoldable pub finish_lookup : PriceCache → ℤ → ℕ → Option ℕ → Result ℕ × PriceCache
finish_lookup cache active_id bin_step (some value) = (ok value, cache)
finish_lookup cache active_id bin_step none =
    fill_entry cache (price_key active_id bin_step) (compute_price_from_id active_id bin_step)

unfoldable pub cached_price_from_id : PriceCache → ℤ → ℕ → Result ℕ × PriceCache
cached_price_from_id cache active_id bin_step =
    let key = price_key active_id bin_step in
    finish_lookup cache active_id bin_step (entry_hit (read_entry cache key) key)
