-- ===== src/Middleware.antt =====
-- The HTTP middleware of pkg/server/middleware that decides who gets through, and the compression.
pub mod Gin
pub mod Auth
pub mod AuthLaws
pub mod Cors
pub mod Security
pub mod SecurityLaws
pub mod Compress
pub mod CompressLaws
