-- ===== src/Web/Pages.antt =====
-- What the pages of src/ai_ha/web/routes/pages.py pass to their templates. The program always passes
-- a state, and one reading of the clock stands for both. The templates and the dates that they print
-- are left out. `none` is a redirection to the first page.
pub mod Rooms
use ai_home_assistant.Prelude.{
  ℕ, ◌+◌, ◌/◌, String, Option, none, some, Bool, false, List, [], ltb, length, map, map_option,
  string_eq,
}
use ai_home_assistant.Prelude.Dict.{Dict, get}
use ai_home_assistant.Store.Rows.{AreaRow, EntityRow, EventRow}
use ai_home_assistant.Store.Exec.{Db}
use ai_home_assistant.Store.Dao.{
  EventQuery, list_areas, list_entities, list_events, get_counters_24h,
}
use ai_home_assistant.Service.{Service}
use ai_home_assistant.Web.Areas.{sum_areas, or_zero, class_distribution, last_seen_max}
use ai_home_assistant.Web.Areas.Detail.{match_area, area_query}

pub record RoomView : Type 0 where
  pub area_id : String
  pub name : Option String
  pub events_per_hour_24h : ℕ
  pub device_class_distribution : Dict String ℕ
  pub is_active : Bool
  pub entity_count : ℕ

-- The two dicts and the maximum are computed as in the route of the areas; the cutoff's subtraction
-- is on the other side.
unfoldable pub room_view : Dict String ℕ → ℕ → Db → AreaRow → RoomView
unfolding class_distribution last_seen_max
room_view per_area now db r =
    let ents = list_entities (some r.area_id) false none 1000 db in
    record {
      area_id = r.area_id;
      name = r.name;
      events_per_hour_24h = or_zero (get r.area_id per_area);
      device_class_distribution = class_distribution ents [];
      is_active = ltb now (last_seen_max ents 0 + 600000);
      entity_count = length ents;
    }

unfoldable pub rooms : ℕ → Db → List RoomView
unfolding sum_areas room_view
rooms now db =
    let per_area = sum_areas (get_counters_24h (now / 3600000) db) [] in
    map (room_view per_area now db) (list_areas db)

pub record Room : Type 0 where
  pub area : AreaRow
  pub entities : List EntityRow
  pub recent_events : List EventRow

unfoldable pub room_of : String → Db → AreaRow → Room
room_of area_id db a = record {
  area = a;
  entities = list_entities (some area_id) false none 1000 db;
  recent_events = list_events (area_query area_id) 50 db;
}

unfoldable pub room : String → Db → Option Room
unfolding match_area room_of
room area_id db = map_option (room_of area_id db) (match_area area_id (list_areas db))

unfoldable pub entities_page : Db → List EntityRow
entities_page db = list_entities none false none 500 db

abbrev no_filter : EventQuery
no_filter = record {
  entity_id = none;
  area_id = none;
  since_ts = none;
  until_ts = none;
  cursor = none;
}

unfoldable pub timeline_page : Db → List EventRow
timeline_page db = list_events no_filter 200 db

unfoldable pub settings_page : Service → List String
settings_page a = a.hide_pattern
