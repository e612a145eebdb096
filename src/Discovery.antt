-- ===== src/Discovery.antt =====
-- The discovery of services of pkg/discovery.
pub mod Consul
pub mod ConsulLaws
