-- ===== src/Service/Messages/Sync.antt =====
-- What the first refresh in src/ai_ha/main.py makes the health report say.
use ai_home_assistant.Prelude.{ℕ, some, true, false, List, ◌≡◌, refl, inl, inr}
use ai_home_assistant.Prelude.Int.{pos}
use ai_home_assistant.Store.Exec.{Result-cases}
use ai_home_assistant.Topology.Payload.{TopologyPayload}
use ai_home_assistant.Topology.Snapshots.{Codec, hash_hex}
use ai_home_assistant.Topology.Snapshots.History.{IsHistory}
use ai_home_assistant.Topology.Orchestrator.{apply}
use ai_home_assistant.Health.{set_topology_snapshot_id, set_ws_connected}
use ai_home_assistant.Adapter.Registry.{
  Frame, Fetch, fetched, connection_closed, auth_failed, request_failed, fetch_once,
}
use ai_home_assistant.Web.Topology.{SnapshotDetail, snapshot_detail}
use ai_home_assistant.Web.Topology.Served.{apply_served}
use ai_home_assistant.Service.{Service}
use ai_home_assistant.Service.Messages.{after_fetch, synced, refetch, initial_sync}

module _ (codec : Codec) (ts : ℕ) (a : Service) where
  -- What the server sent is a payload, and its snapshot is both reported and served.
  pub record IsSynced (frames : List Frame) (b : Service) : Type 0 where
    pub payload : TopologyPayload
    pub sid : ℕ
    pub shown : SnapshotDetail
    pub received : fetch_once frames ≡ fetched payload
    pub reported : b.health.topology_snapshot_id ≡ some sid
    pub served : snapshot_detail codec (pos sid) b.ingest.world.db ≡ some shown
    pub hash : shown.hash ≡ hash_hex codec payload

  IsSynced-fetched :
      (frames : List Frame) (p : TopologyPayload)
      → fetch_once frames ≡ fetched p
      → IsHistory a.ingest.world.db
      → a.health.ws_connected ≡ false
      → (initial_sync codec frames ts a).health.ws_connected ≡ true
      → IsSynced frames (initial_sync codec frames ts a)
  unfolding initial_sync
  IsSynced-fetched frames p got history before h =
      elim (Result-cases (apply codec p ts a.ingest.pipeline.index a.ingest.world).0) [
        | inl ((sid, new), e) ↦
            let (d, served, hash, _) =
              apply_served codec p ts a.ingest.pipeline.index a.ingest.world sid new history e in
            record {
              payload = p;
              sid = sid;
              shown = d;
              received = got;
              reported = rw (got, e) (unfold set_topology_snapshot_id set_ws_connected in refl);
              served = rw (got, e) served;
              hash = hash;
            }
        | inr (x, e) ↦ absurd (let no = rw (got, e) at h in cc)
      ]

  not_fetched :
      (frames : List Frame) (r : Fetch TopologyPayload)
      → fetch_once frames ≡ r
      → (synced (after_fetch codec r ts a).0 (after_fetch codec r ts a).1).health.ws_connected
        ≡ true
      → a.health.ws_connected ≡ false
      → (p : TopologyPayload) × (fetch_once frames ≡ fetched p)
  not_fetched frames (fetched p) got h before = (p, got)
  not_fetched frames connection_closed got h before = cc
  not_fetched frames auth_failed got h before = cc
  not_fetched frames request_failed got h before = cc

  -- Where the first refresh makes the health report say that the service is connected, the server
  -- has sent its registries, the report names a snapshot, and the detail view serves that snapshot
  -- with the hash of what was sent. The history of snapshots was in order.
  pub initial_sync_reports :
      (frames : List Frame)
      → IsHistory a.ingest.world.db
      → a.health.ws_connected ≡ false
      → (initial_sync codec frames ts a).health.ws_connected ≡ true
      → IsSynced frames (initial_sync codec frames ts a)
  initial_sync_reports frames history before h =
      let (p, got) =
        not_fetched frames (fetch_once frames) refl (unfold initial_sync refetch in h) before in
      IsSynced-fetched frames p got history before h
