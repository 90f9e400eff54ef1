-- ===== src/Adapter.antt =====
-- The connections to Home Assistant of src/ai_ha/ha_adapter.
pub mod Rest
pub mod Socket
pub mod Registry
