-- ===== src/Timeout.antt =====
-- The timeout middleware, pkg/server/middleware/timeout.go.
pub mod Writer
pub mod WriterLaws
pub mod Machine
pub mod Safety
pub mod Config
