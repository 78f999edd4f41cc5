-- ===== src/Math.antt =====
-- math/: the fixed-point primitives.
pub mod Common
pub mod Dlmm
pub mod Damm
pub mod Orca
pub mod Raydium
