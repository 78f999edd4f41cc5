-- ===== src/Tests.antt =====
-- Runs at concrete inputs, and the theorems at inputs that meet their hypotheses.
pub mod Primitives
pub mod DlmmQuote
pub mod PriceCache
pub mod DammQuote
pub mod Models
pub mod OrcaMath
pub mod Orca
pub mod OrcaTicks
pub mod ConstantProduct
pub mod Raydium
pub mod Fees
pub mod Quoter
pub mod RaydiumTicks
