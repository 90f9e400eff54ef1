-- ===== src/Topology/Snapshots.antt =====
-- `SnapshotStore` of src/ai_ha/topology/snapshot_store.py. The canonical JSON text, its reader and
-- the SHA-256 digest are parameters.
pub mod History
use ai_home_assistant.Prelude.{
  ℕ, ◌+◌, String, Option, none, some, Bool, true, false, List, [], ◌∷◌, if◌then◌else◌, string_eq,
  ◌==◌, map_option,
}
use ai_home_assistant.Store.Rows.{SnapshotRow}
use ai_home_assistant.Store.Exec.{Db, Result, ok, Exec, pure, transaction}
use ai_home_assistant.Topology.Payload.{Item, TopologyPayload}

-- What `json.loads` reads: any of the three lists may be missing.
pub record RawPayload : Type 0 where
  pub areas : Option (List Item)
  pub devices : Option (List Item)
  pub entities : Option (List Item)

-- `dumps` is `json.dumps` with sorted keys, `loads` is `json.loads`.
pub record Codec : Type 0 where
  pub dumps : TopologyPayload → String
  pub loads : String → RawPayload
  pub sha256 : String → String

pub record Snapshot : Type 0 where
  pub snapshot_id : ℕ
  pub ts_ms : ℕ
  pub payload_hash : String
  pub payload : TopologyPayload
  pub diff_summary : Option String

abbrev or_empty : Option (List Item) → List Item
or_empty none = []
or_empty (some items) = items

module _ (codec : Codec) where
  unfoldable pub hash_hex : TopologyPayload → String
  hash_hex payload = codec.sha256 (codec.dumps payload)

  unfoldable pub row_to_snapshot : SnapshotRow → Snapshot
  row_to_snapshot row =
      let raw = codec.loads row.payload in
      record {
        snapshot_id = row.snapshot_id;
        ts_ms = row.ts;
        payload_hash = row.payload_hash;
        payload = record {
          areas = or_empty raw.areas;
          devices = or_empty raw.devices;
          entities = or_empty raw.entities;
        };
        diff_summary = row.diff_summary;
      }

  -- ORDER BY snapshot_id DESC LIMIT 1
  abbrev newest : List SnapshotRow → Option Snapshot
  newest [] = none
  newest (row ∷ rows) = some (row_to_snapshot row)

  unfoldable pub get_current : Db → Option Snapshot
  unfolding row_to_snapshot
  get_current db = newest db.snapshots

-- SELECT snapshot_id ... WHERE payload_hash = ?
unfoldable pub id_of_hash : String → List SnapshotRow → Option ℕ
id_of_hash h [] = none
id_of_hash h (row ∷ rows) =
    if row.payload_hash == h then some row.snapshot_id else id_of_hash h rows

-- The INSERT: the new row's id is one above the last that was given.
unfoldable pub add_snapshot : ℕ → String → String → Option String → Db → Db
add_snapshot ts_ms new_hash text diff_summary db = record db {
  snapshots =
      record {
        snapshot_id = db.snapshot_seq + 1;
        ts = ts_ms;
        payload_hash = new_hash;
        payload = text;
        diff_summary = diff_summary;
      }
      ∷ db.snapshots;
  snapshot_seq = db.snapshot_seq + 1;
}

unfoldable pub store_hash : Option ℕ → ℕ → String → String → Option String → Exec (ℕ × Bool)
unfolding transaction add_snapshot
store_hash (some sid) ts_ms new_hash text diff_summary = pure (sid, false)
store_hash none ts_ms new_hash text diff_summary =
    transaction
      (λ db. ok ((db.snapshot_seq + 1, true), add_snapshot ts_ms new_hash text diff_summary db))

module _ (codec : Codec) where
  unfoldable pub insert_if_changed : TopologyPayload → ℕ → Option String → Exec (ℕ × Bool)
  unfolding store_hash hash_hex
  insert_if_changed payload ts_ms diff_summary w =
      let new_hash = hash_hex codec payload in
      store_hash (id_of_hash new_hash w.db.snapshots) ts_ms new_hash (codec.dumps payload)
        diff_summary w
