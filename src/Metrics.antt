-- ===== src/Metrics.antt =====
-- The request metrics, pkg/server/middleware/metrics.go.
pub mod Requests
pub mod Counts
