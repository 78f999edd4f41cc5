-- ===== src/Models.antt =====
-- models: what the venues charge, from the decoded accounts.
pub mod Bytes
pub mod BaseFee
pub mod RateLimiter
pub mod PumpPool
pub mod PumpFee
pub mod RaydiumTick
pub mod Whirlpool
pub mod RaydiumCpmm
pub mod RaydiumAmmV4
pub mod BondingCurve
pub mod TransferFee
pub mod FluxBeam
