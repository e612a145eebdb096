-- ===== src/Database.antt =====
-- The database of pkg/database.
pub mod SlowQuery
