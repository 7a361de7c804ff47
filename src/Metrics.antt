-- ===== src/Metrics.antt =====
-- src/metrics: what health.json and metrics.json report.
pub mod Store
pub mod Report
pub mod Save
