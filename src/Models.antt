-- ===== src/Models.antt =====
-- app/models: the enums and the tables.
pub mod Enums
pub mod Entities
pub mod Ordering
