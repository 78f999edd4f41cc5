-- ===== src/Math/Dlmm.antt =====
-- math/dlmm: the Q64.64 primitives of Meteora DLMM.
pub mod MulDiv
pub mod Pow
pub mod Price
