-- ===== src/Topology.antt =====
-- src/ai_ha/topology: payloads of the registries, the entity index, the orphans, the snapshots and
-- the refresh that joins them.
pub mod Payload
pub mod EntityIndex
pub mod Orphans
pub mod Snapshots
pub mod Orchestrator
