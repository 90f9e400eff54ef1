-- ===== src/Web/Topology.antt =====
-- The snapshot views of src/ai_ha/web/routes/topology.py. The rows stand with the newest first, so
-- that their order is the one by descending id. The program always passes a state; the answers
-- without one are left out. `none` is the status 503 or 404.
pub mod Served
use ai_home_assistant.Prelude.{
  ℕ, String, Option, none, some, Bool, false, List, [], ◌∷◌, if◌then◌else◌, ◌==◌, nat_eq, length,
  map, map_option, take,
}
use ai_home_assistant.Prelude.Int.{ℤ, pos, negsuc}
use ai_home_assistant.Store.Rows.{SnapshotRow}
use ai_home_assistant.Store.Exec.{Db}
use ai_home_assistant.Topology.Snapshots.{Codec, RawPayload, Snapshot, get_current}

pub record TopologySummary : Type 0 where
  pub snapshot_id : ℕ
  pub ts : ℕ
  pub hash : String
  pub areas_count : ℕ
  pub devices_count : ℕ
  pub entities_count : ℕ
  pub diff_summary : Option String

unfoldable pub summary : Snapshot → TopologySummary
summary cur = record {
  snapshot_id = cur.snapshot_id;
  ts = cur.ts_ms;
  hash = cur.payload_hash;
  areas_count = length cur.payload.areas;
  devices_count = length cur.payload.devices;
  entities_count = length cur.payload.entities;
  diff_summary = cur.diff_summary;
}

pub record SnapshotView : Type 0 where
  pub snapshot_id : ℕ
  pub ts : ℕ
  pub hash : String
  pub diff_summary : Option String

unfoldable pub snapshot_view : SnapshotRow → SnapshotView
snapshot_view r = record {
  snapshot_id = r.snapshot_id;
  ts = r.ts;
  hash = r.payload_hash;
  diff_summary = r.diff_summary;
}

pub record SnapshotDetail : Type 0 where
  pub snapshot_id : ℕ
  pub ts : ℕ
  pub hash : String
  pub payload : RawPayload
  pub diff_summary : Option String

-- The framework has checked that the limit is from 1 to 200.
unfoldable pub list_snapshots : ℕ → Db → List SnapshotView
unfolding snapshot_view
list_snapshots limit db = map snapshot_view (take limit db.snapshots)

abbrev has_id : ℤ → ℕ → Bool
has_id (pos n) sid = n == sid
has_id (negsuc _) sid = false

-- SELECT ... WHERE snapshot_id=?
unfoldable pub row_of_id : ℤ → List SnapshotRow → Option SnapshotRow
row_of_id sid [] = none
row_of_id sid (row ∷ rows) = if has_id sid row.snapshot_id then some row else row_of_id sid rows

module _ (codec : Codec) where
  unfoldable pub current_topology : Db → Option TopologySummary
  unfolding summary
  current_topology db = map_option summary (get_current codec db)

  unfoldable pub detail : SnapshotRow → SnapshotDetail
  detail row = record {
    snapshot_id = row.snapshot_id;
    ts = row.ts;
    hash = row.payload_hash;
    payload = codec.loads row.payload;
    diff_summary = row.diff_summary;
  }

  unfoldable pub snapshot_detail : ℤ → Db → Option SnapshotDetail
  unfolding row_of_id detail
  snapshot_detail sid db = map_option detail (row_of_id sid db.snapshots)
