-- ===== src/Config.antt =====
-- The configuration of src/ai_ha/config: the file, the environment, and the classes that they fill.
pub mod Toml
pub mod Classes
pub mod Schema
pub mod Loader
pub mod Watcher
