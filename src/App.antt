-- ===== src/App.antt =====
-- The application of pkg/app: its builder, the health checks and the life cycle of a service.
pub mod Health
pub mod HealthLaws
pub mod Lifecycle
pub mod LifecycleLaws
pub mod Builder
pub mod BuilderLaws
