-- ===== src/Models/PumpPool/Reserve.antt =====
-- models/pump_pool.go: the reserve that a swap is quoted against.
use soldex.Base.{ℕ, ◌^◌, ◌≤◌, ◌<◌, ◌≡◌, arith, some, ltb, if◌then◌else◌}
use soldex.Base.Int.{ℤ, pos, negsuc, pos_part, ◌+ℤ◌}
use soldex.Base.Words.{max_u64}
use soldex.Models.PumpPool.{SolanaKeys, PumpPool, net_of_virtual, effective_quote_reserve}

-- An integer brought into the range of a uint64.
unfoldable pub saturate_u64 : ℤ → ℕ
saturate_u64 (pos n) = if ltb max_u64 n then max_u64 else n
saturate_u64 (negsuc n) = 0

net_of_virtual-eq-saturate_u64 :
    (v : ℤ) (vault : ℕ)
    → pos_part v < 2 ^ 63
    → vault ≤ max_u64
    → net_of_virtual v vault ≡ saturate_u64 (pos vault +ℤ v)
unfolding net_of_virtual saturate_u64 ◌+ℤ◌
net_of_virtual-eq-saturate_u64 (pos n) vault small h = ground arith
net_of_virtual-eq-saturate_u64 (negsuc n) vault small h = ground arith

-- The quote reserve of a pool is the sum of the uint64 balance of its vault and of its virtual reserve,
-- an int64 that may be negative, brought into the range of a uint64.
effective_quote_reserve-eq-saturate_u64 :
    (keys : SolanaKeys) (p : PumpPool keys) (vault : ℕ)
    → pos_part p.virtual_quote_reserves < 2 ^ 63
    → vault ≤ max_u64
    → effective_quote_reserve keys (some p) vault
      ≡ saturate_u64 (pos vault +ℤ p.virtual_quote_reserves)
unfolding effective_quote_reserve
effective_quote_reserve-eq-saturate_u64 keys p vault small h =
    net_of_virtual-eq-saturate_u64 p.virtual_quote_reserves vault small h
