-- ===== src/Math/Orca.antt =====
-- math/orca: the Q64.64 primitives of Orca Whirlpools.
pub mod Curve
pub mod Tick
