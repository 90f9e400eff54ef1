-- ===== src/Store/Rows.antt =====
-- The row types of src/ai_ha/store/dao.py. Times, counts and ids are natural numbers: they come
-- from the clock, from counters and from AUTOINCREMENT. `disabled` is the column's 0 or 1.
use ai_home_assistant.Prelude.{ℕ, String, Option}

-- `name` is optional here because the caller may pass `None`, which the table refuses.
pub record AreaRow : Type 0 where
  pub area_id : String
  pub name : Option String
  pub floor_id : Option String
  pub icon : Option String
  pub aliases : String
  pub snapshot_id : ℕ
  pub first_seen_at : ℕ
  pub last_seen_at : ℕ

pub record DeviceRow : Type 0 where
  pub device_id : String
  pub name : Option String
  pub manufacturer : Option String
  pub model : Option String
  pub area_id : Option String
  pub sw_version : Option String
  pub snapshot_id : ℕ
  pub first_seen_at : ℕ
  pub last_seen_at : ℕ

pub record EntityRow : Type 0 where
  pub entity_id : String
  pub friendly_name : Option String
  pub domain : String
  pub device_class : Option String
  pub device_id : Option String
  pub area_id : Option String
  pub disabled : ℕ
  pub snapshot_id : ℕ
  pub first_seen_at : ℕ
  pub last_seen_at : ℕ
  pub event_count_24h : ℕ
  pub total_event_count : ℕ

pub record EventRow : Type 0 where
  pub ts : ℕ
  pub received_at : ℕ
  pub entity_id : String
  pub event_type : String
  pub old_state : Option String
  pub new_state : Option String
  pub context_user_id : Option String
  pub context_parent_id : Option String
  pub area_id : Option String
  pub device_id : Option String
  pub device_class : Option String
  pub snapshot_id : ℕ

-- A row of topology_snapshots.
pub record SnapshotRow : Type 0 where
  pub snapshot_id : ℕ
  pub ts : ℕ
  pub payload_hash : String
  pub payload : String
  pub diff_summary : Option String
