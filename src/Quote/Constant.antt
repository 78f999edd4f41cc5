-- ===== src/Quote/Constant.antt =====
-- The venues whose curve is x * y = k over two balances.
pub mod Product
pub mod Pump
pub mod PumpCurve
pub mod RayCpmm
pub mod RayAmmV4
pub mod FluxBeam
