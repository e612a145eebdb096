-- ===== src/Codegen.antt =====
-- The generators of cmd/goupter: of models, of handlers and their routes, and of books of requests.
pub mod Types
pub mod Table
pub mod TableLaws
pub mod Strings
pub mod StringLaws
pub mod Paths
pub mod PathLaws
pub mod Routes
pub mod RouteLaws
pub mod Httpbook
pub mod HttpbookLaws
pub mod Crud
pub mod RouteLines
pub mod CrudLaws
