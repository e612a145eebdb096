-- ===== src/Cache.antt =====
-- pkg/cache: the cache contract, its in-memory implementation and the multi-level cache.
pub mod Errors
pub mod Json
pub mod Memory
pub mod Level
pub mod Multi
