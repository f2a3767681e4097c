-- ===== src/Mvcc.antt =====
-- internal/mvcc: from the records of the etcd backend to the batches that are stored.
pub mod Pipeline
pub mod Decode
pub mod Run
