-- ===== src/Quote/Raydium.antt =====
-- quote/raydium: exact-in quotes of Raydium CLMM pools.
pub mod State
pub mod DynamicFee
pub mod LimitOrder
pub mod Swap
pub mod TickArray
