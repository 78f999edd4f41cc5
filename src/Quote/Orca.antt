-- ===== src/Quote/Orca.antt =====
-- quote/orca: exact-in quotes of Orca Whirlpools.
pub mod Adaptive
pub mod FeeManager
pub mod Step
pub mod Swap
pub mod TickArray
