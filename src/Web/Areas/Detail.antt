-- ===== src/Web/Areas/Detail.antt =====
-- `GET /api/v1/areas/{area_id}` and `GET /api/v1/areas/{area_id}/entities` of
-- src/ai_ha/web/routes/areas.py. `none` is the status 404.
use ai_home_assistant.Prelude.{
  ℕ, String, Option, none, some, false, List, [], ◌∷◌, if◌then◌else◌, ◌==◌, string_eq, map,
  map_option,
}
use ai_home_assistant.Store.Rows.{AreaRow, EntityRow, EventRow}
use ai_home_assistant.Store.Exec.{Db}
use ai_home_assistant.Store.Dao.{EventQuery, list_areas, list_entities, list_events}

pub record AreaHead : Type 0 where
  pub area_id : String
  pub name : Option String
  pub floor_id : Option String

pub record AreaEntity : Type 0 where
  pub entity_id : String
  pub friendly_name : Option String
  pub device_class : Option String
  pub last_seen : ℕ

pub record AreaEvent : Type 0 where
  pub ts : ℕ
  pub entity_id : String
  pub event_type : String
  pub old_state : Option String
  pub new_state : Option String

pub record AreaDetail : Type 0 where
  pub area : AreaHead
  pub entities : List AreaEntity
  pub recent_events : List AreaEvent

-- `next((a for a in areas if a.area_id == area_id), None)`
unfoldable pub match_area : String → List AreaRow → Option AreaRow
match_area area_id [] = none
match_area area_id (a ∷ areas) = if a.area_id == area_id then some a else match_area area_id areas

unfoldable pub area_entity : EntityRow → AreaEntity
area_entity e = record {
  entity_id = e.entity_id;
  friendly_name = e.friendly_name;
  device_class = e.device_class;
  last_seen = e.last_seen_at;
}

unfoldable pub area_event : EventRow → AreaEvent
area_event ev = record {
  ts = ev.ts;
  entity_id = ev.entity_id;
  event_type = ev.event_type;
  old_state = ev.old_state;
  new_state = ev.new_state;
}

abbrev pub area_query : String → EventQuery
area_query area_id = record {
  entity_id = none;
  area_id = some area_id;
  since_ts = none;
  until_ts = none;
  cursor = none;
}

unfoldable pub detail_of : String → Db → AreaRow → AreaDetail
unfolding area_entity area_event
detail_of area_id db a = record {
  area = record { area_id = a.area_id; name = a.name; floor_id = a.floor_id };
  entities = map area_entity (list_entities (some area_id) false none 1000 db);
  recent_events = map area_event (list_events (area_query area_id) 50 db);
}

unfoldable pub area_detail : String → Db → Option AreaDetail
unfolding match_area detail_of
area_detail area_id db = map_option (detail_of area_id db) (match_area area_id (list_areas db))

pub record EntityCount : Type 0 where
  pub entity_id : String
  pub friendly_name : Option String
  pub device_class : Option String
  pub last_seen : ℕ
  pub event_count_24h : ℕ

unfoldable pub entity_count_view : EntityRow → EntityCount
entity_count_view e = record {
  entity_id = e.entity_id;
  friendly_name = e.friendly_name;
  device_class = e.device_class;
  last_seen = e.last_seen_at;
  event_count_24h = e.event_count_24h;
}

unfoldable pub area_entities : String → Db → List EntityCount
unfolding entity_count_view
area_entities area_id db = map entity_count_view (list_entities (some area_id) false none 1000 db)
