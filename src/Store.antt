-- ===== src/Store.antt =====
-- src/ai_ha/store: the tables, and the data access object over them.
pub mod Rows
pub mod Exec
pub mod Migrations
pub mod Dao
pub mod Outcomes
pub mod Sound
pub mod Counters
pub mod Pages
pub mod Upsert
