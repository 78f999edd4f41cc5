-- ===== src/Math/Raydium.antt =====
-- math/raydium: the Q64.64 primitives of Raydium CLMM.
pub mod Liquidity
pub mod SqrtPrice
pub mod Step
pub mod Tick
