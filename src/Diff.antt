-- ===== src/Diff.antt =====
-- internal/diff: the comparison of two analysed snapshots.
pub mod Rows
pub mod Aligner
pub mod Join
pub mod Delta
pub mod Groups
pub mod Parts
pub mod Summary
pub mod Compare
pub mod Lifecycle
