-- ===== src/Web/Entities.antt =====
-- The two lists of src/ai_ha/web/routes/entities.py. The framework has checked that a limit is from
-- 1 to 1000. The program always passes a state; the empty answers without one are left out.
use ai_home_assistant.Prelude.{ℕ, String, Option, none, some, Bool, List, ◌==◌, nat_eq, map, not}
use ai_home_assistant.Prelude.Int.{ℤ}
use ai_home_assistant.Store.Rows.{EntityRow, EventRow}
use ai_home_assistant.Store.Exec.{Db}
use ai_home_assistant.Store.Dao as Dao
use ai_home_assistant.Store.Dao.{EventQuery, list_events}

pub record EntityView : Type 0 where
  pub entity_id : String
  pub friendly_name : Option String
  pub domain : String
  pub device_class : Option String
  pub device_id : Option String
  pub area_id : Option String
  pub disabled : Bool
  pub snapshot_id : ℕ
  pub last_seen : ℕ
  pub event_count_24h : ℕ
  pub total_event_count : ℕ

unfoldable pub entity_view : EntityRow → EntityView
entity_view r = record {
  entity_id = r.entity_id;
  friendly_name = r.friendly_name;
  domain = r.domain;
  device_class = r.device_class;
  device_id = r.device_id;
  area_id = r.area_id;
  disabled = not (r.disabled == 0);
  snapshot_id = r.snapshot_id;
  last_seen = r.last_seen_at;
  event_count_24h = r.event_count_24h;
  total_event_count = r.total_event_count;
}

unfoldable pub list_entities_route : Option String → Bool → Option String → ℕ → Db → List EntityView
unfolding entity_view
list_entities_route area_id orphan device_class limit db =
    map entity_view (Dao.list_entities area_id orphan device_class limit db)

pub record EntityEvent : Type 0 where
  pub ts : ℕ
  pub received_at : ℕ
  pub event_type : String
  pub old_state : Option String
  pub new_state : Option String
  pub context_user_id : Option String

unfoldable pub entity_event : EventRow → EntityEvent
entity_event r = record {
  ts = r.ts;
  received_at = r.received_at;
  event_type = r.event_type;
  old_state = r.old_state;
  new_state = r.new_state;
  context_user_id = r.context_user_id;
}

abbrev pub events_query : String → Option ℤ → EventQuery
events_query entity_id cursor = record {
  entity_id = some entity_id;
  area_id = none;
  since_ts = none;
  until_ts = none;
  cursor = cursor;
}

unfoldable pub entity_events : String → ℕ → Option ℤ → Db → List EntityEvent
unfolding entity_event
entity_events entity_id limit cursor db =
    map entity_event (list_events (events_query entity_id cursor) limit db)
