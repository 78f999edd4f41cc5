-- ===== src/Quote.antt =====
-- quote/: the exact-in swap quotes, a package for each venue.
pub mod Dlmm
pub mod Raydium
pub mod Orca
pub mod Damm
pub mod Constant
