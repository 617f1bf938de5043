-- ===== src/Stats.antt =====
-- The packages below stats.
pub mod Authority
pub mod Slots
pub mod Outcome
pub mod Blocks
pub mod Liveness
pub mod Slices
pub mod Pos
pub mod Prices
pub mod Transactions
