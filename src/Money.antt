-- ===== src/Money.antt =====
-- Splitting an expense and netting the records of a group, in minor units.
pub mod Split
pub mod Balance
mod Tests
