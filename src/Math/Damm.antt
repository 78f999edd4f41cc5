-- ===== src/Math/Damm.antt =====
-- math/damm: the primitives of Meteora DAMM v2.
pub mod Safe
pub mod MulDiv
pub mod Cast
pub mod Sqrt
pub mod Fee
pub mod Curve
