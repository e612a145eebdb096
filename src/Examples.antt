-- ===== src/Examples.antt =====
-- Concrete runs of the models, and each theorem at an input that meets its hypotheses.
mod CacheData
mod Memory
mod Multi
mod RateLimit
mod Config
mod App
mod Log
mod Timeout
mod Interceptor
mod Errors
mod Masker
mod Auth
mod Metrics
mod Middleware
mod Consul
mod Codegen
mod Hook
mod Httpbook
mod Builder
mod Mq
mod Crud
mod Services
mod Compress
