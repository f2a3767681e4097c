-- ===== src/Tests.antt =====
-- Concrete inputs, and the theorems at them.
pub mod Comparisons
pub mod Keys
pub mod Runs
pub mod Files
pub mod Fields
pub mod Records
pub mod Tasks
pub mod Workers
pub mod Windows
pub mod Starts
