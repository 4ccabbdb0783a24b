-- ===== src/Integrations.antt =====
-- The packages under integrations: cache and sql.
pub mod Cache
pub mod Recorded
pub mod Sql
