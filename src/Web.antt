-- ===== src/Web.antt =====
-- The parts of src/ai_ha/web that keep state or decide.
pub mod Stream
pub mod Events
pub mod Auth
pub mod Areas
pub mod Settings
pub mod Topology
pub mod Entities
pub mod Pages
pub mod App
