-- ===== src/Web/Events.antt =====
-- `GET /api/v1/events` of src/ai_ha/web/routes/events.py. Python's `int` of a text and `str` of a
-- number are parameters; the framework has checked that the limit is from 1 to 1000. The program
-- always passes a state; the empty answer of the route without one is left out.
pub mod Cursor
use ai_home_assistant.Prelude.{
  ℕ, String, Option, none, some, List, [], ◌∷◌, ◌==◌, nat_eq, if◌then◌else◌, length, last?, map,
}
use ai_home_assistant.Prelude.Int.{ℤ}
use ai_home_assistant.Store.Rows.{EventRow}
use ai_home_assistant.Store.Exec.{Db}
use ai_home_assistant.Store.Dao.{EventQuery, list_events}

pub record EventView : Type 0 where
  pub ts : ℕ
  pub received_at : ℕ
  pub entity_id : String
  pub event_type : String
  pub old_state : Option String
  pub new_state : Option String
  pub area_id : Option String
  pub device_class : Option String

unfoldable pub view_of : EventRow → EventView
view_of r = record {
  ts = r.ts;
  received_at = r.received_at;
  entity_id = r.entity_id;
  event_type = r.event_type;
  old_state = r.old_state;
  new_state = r.new_state;
  area_id = r.area_id;
  device_class = r.device_class;
}

pub record EventsPage : Type 0 where
  pub events : List EventView
  pub next_cursor : Option String

pub data EventsReply : Type 0 where
  events_page : EventsPage → EventsReply
  bad_cursor : EventsReply

-- The filters of a request, without its cursor and limit.
pub record EventsFilter : Type 0 where
  pub since : Option ℤ
  pub until : Option ℤ
  pub area_id : Option String
  pub entity_id : Option String

abbrev pub query_of : EventsFilter → Option ℤ → EventQuery
query_of f cursor_int = record {
  entity_id = f.entity_id;
  area_id = f.area_id;
  since_ts = f.since;
  until_ts = f.until;
  cursor = cursor_int;
}

module _ (int : String → Option ℤ) (str : ℕ → String) where
  abbrev pub cursor_after : ℕ → ℕ → Option EventRow → Option String
  cursor_after limit n none = none
  cursor_after limit n (some r) = if n == limit then some (str r.ts) else none

  -- `str(rows[-1].ts) if rows and len(rows) == limit else None`
  unfoldable pub next_cursor : ℕ → List EventRow → Option String
  next_cursor limit rows = cursor_after limit (length rows) (last? rows)

  unfoldable pub page_of : ℕ → List EventRow → EventsReply
  unfolding view_of next_cursor
  page_of limit rows =
      events_page (record { events = map view_of rows; next_cursor = next_cursor limit rows })

  abbrev with_cursor : EventsFilter → ℕ → Option ℤ → Db → EventsReply
  with_cursor f limit none db = bad_cursor
  with_cursor f limit (some z) db = page_of limit (list_events (query_of f (some z)) limit db)

  unfoldable pub list_events_route : EventsFilter → ℕ → Option String → Db → EventsReply
  unfolding page_of
  list_events_route f limit none db = page_of limit (list_events (query_of f none) limit db)
  list_events_route f limit (some text) db = with_cursor f limit (int text) db
