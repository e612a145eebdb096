-- ===== src/Auth.antt =====
-- pkg/auth: the claims, the registry of plugins and the plugin for JSON web tokens.
pub mod Claims
pub mod Registry
pub mod Jwt
pub mod JwtLaws
