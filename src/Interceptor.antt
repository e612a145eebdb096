-- ===== src/Interceptor.antt =====
-- The gRPC interceptors, pkg/server/interceptor/interceptor.go.
pub mod Types
pub mod Handlers
pub mod Logging
pub mod Chain
pub mod ChainLaws
pub mod HandlerLaws
