-- ===== src/Task.antt =====
-- internal/task: the life of an analysis task, its progress, the runner of its stages, its lock file and the
-- service that keeps the tasks.
pub mod Status
pub mod Progress
pub mod Work
pub mod Runner
pub mod Lease
pub mod Manifest
pub mod Paths
pub mod Store
pub mod Create
