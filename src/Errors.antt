-- ===== src/Errors.antt =====
-- Business errors and the response envelope, pkg/errors and pkg/response.
pub mod Codes
pub mod Error
pub mod Response
pub mod Laws
