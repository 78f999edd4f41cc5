-- ===== src/Quote/Dlmm.antt =====
-- quote/dlmm: the Meteora DLMM swap, bin by bin.
pub mod Fees
pub mod Bin
pub mod Pool
pub mod Swap
