-- ===== src/RateLimit.antt =====
-- pkg/server/middleware/ratelimit.go: the limiters and the middleware that asks them.
pub mod Window
pub mod WindowBounds
pub mod Bucket
pub mod BucketBounds
pub mod Middleware
