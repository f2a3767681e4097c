-- ===== src/Metrics.antt =====
-- internal/metricsanalysis/evidence.go: what the metrics of a time window say about the growth of the
-- database.
pub mod Curves
pub mod Histogram
pub mod Evidence
