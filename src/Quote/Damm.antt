-- ===== src/Quote/Damm.antt =====
-- quote/damm: the Meteora DAMM v2 swap, compounding and concentrated.
pub mod Fees
pub mod Compounding
pub mod Concentrated
