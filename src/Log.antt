-- ===== src/Log.antt =====
-- Logging, pkg/log: the samplers, the masker, the hooks and the named loggers.
pub mod Sampler
pub mod SamplerLaws
pub mod Masker
pub mod MaskerLaws
pub mod Hook
pub mod HookLaws
pub mod Async
pub mod AsyncLaws
pub mod Named
pub mod NamedLaws
