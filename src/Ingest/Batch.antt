-- ===== src/Ingest/Batch.antt =====
-- `_commit_locked` of src/ai_ha/ingest/pipeline.py: from the buffer to the writes of a batch.
pub mod Collect
pub mod Writes
pub mod Total
use ai_home_assistant.Prelude.{
  ℕ, ◌/◌, String, Option, none, some, Bool, true, false, List, [], ◌∷◌, ◌++◌, if◌then◌else◌, truthy,
  string_eq, nat_eq, pair_eq,
}
use ai_home_assistant.Prelude.Dict.{Dict, alter, put}
use ai_home_assistant.Store.Rows.{EventRow}
use ai_home_assistant.Store.Exec.{Exec, pure, ◌>>=◌, ◌>>◌}
use ai_home_assistant.Store.Dao.{added, insert_events, increment_counter, bump_entity_event_counts}
use ai_home_assistant.Topology.EntityIndex.{EntityRef, EntityIndex, lookup}

abbrev hour_ms : ℕ
hour_ms = 3600000

unfoldable pub bucket_for : ℕ → ℕ
bucket_for ts_ms = ts_ms / hour_ms

unfoldable pub now_bucket : ℕ → ℕ
now_bucket now_ms = now_ms / hour_ms

pub record HaEvent : Type 0 where
  pub ts_ms : ℕ
  pub entity_id : String
  pub event_type : String
  pub old_state : Option String
  pub new_state : Option String
  pub context_user_id : Option String
  pub context_parent_id : Option String

-- An event with the snapshot id that its entity had when it came.
abbrev pub Buffered : Type 0
Buffered = HaEvent × ℕ

pub record Batch : Type 0 where
  pub rows : List EventRow
  pub per_area : Dict (String × ℕ) ℕ
  pub per_entity_last : Dict String ℕ

abbrev pub ref_area : Option EntityRef → Option String
ref_area none = none
ref_area (some ref) = ref.area_id

abbrev ref_device : Option EntityRef → Option String
ref_device none = none
ref_device (some ref) = ref.device_id

abbrev ref_class : Option EntityRef → Option String
ref_class none = none
ref_class (some ref) = ref.device_class

unfoldable pub event_row : EntityIndex → ℕ → Buffered → EventRow
event_row idx received_at (ev, sid) =
    let ref = lookup ev.entity_id idx in
    record {
      ts = ev.ts_ms;
      received_at = received_at;
      entity_id = ev.entity_id;
      event_type = ev.event_type;
      old_state = ev.old_state;
      new_state = ev.new_state;
      context_user_id = ev.context_user_id;
      context_parent_id = ev.context_parent_id;
      area_id = ref_area ref;
      device_id = ref_device ref;
      device_class = ref_class ref;
      snapshot_id = sid;
    }

-- `if area_id: per_area[key] = per_area.get(key, 0) + 1`
unfoldable pub count_area : Option String → ℕ → Dict (String × ℕ) ℕ → Dict (String × ℕ) ℕ
unfolding bucket_for
count_area none ts_ms d = d
count_area (some a) ts_ms d = if truthy (some a) then alter (a, bucket_for ts_ms) (added 1) d else d

-- One round of the loop over the buffer.
unfoldable pub add_event : EntityIndex → ℕ → Buffered → Batch → Batch
unfolding event_row count_area
add_event idx received_at b batch = record {
  rows = batch.rows ++ event_row idx received_at b ∷ [];
  per_area = count_area (ref_area (lookup b.0.entity_id idx)) b.0.ts_ms batch.per_area;
  per_entity_last = put b.0.entity_id b.0.ts_ms batch.per_entity_last;
}

unfoldable pub collect : EntityIndex → ℕ → List Buffered → Batch → Batch
unfolding add_event
collect idx received_at [] batch = batch
collect idx received_at (b ∷ bs) batch =
    collect idx received_at bs (add_event idx received_at b batch)

abbrev pub empty_batch : Batch
empty_batch = record { rows = []; per_area = []; per_entity_last = [] }

unfoldable pub bump_areas : Dict (String × ℕ) ℕ → Exec (Unit {0})
bump_areas [] = pure tt
bump_areas (((aid, bucket), n) ∷ rest) = do increment_counter aid bucket n; bump_areas rest

unfoldable pub bump_entities : Dict String ℕ → Exec (Unit {0})
bump_entities [] = pure tt
bump_entities ((eid, last_ts) ∷ rest) = do bump_entity_event_counts eid last_ts; bump_entities rest

-- The writes: one transaction for the events, one for each key of either dict.
unfoldable pub write_batch : Batch → Exec (Unit {0})
unfolding bump_areas bump_entities
write_batch batch = do
  insert_events batch.rows
  bump_areas batch.per_area
  bump_entities batch.per_entity_last
