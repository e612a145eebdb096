-- ===== src/Consul.antt =====
-- The configuration source and the configuration center of pkg/config/consul.go.
pub mod Center
pub mod CenterLaws
