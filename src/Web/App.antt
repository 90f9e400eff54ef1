-- ===== src/Web/App.antt =====
-- `create_app` of src/ai_ha/web/app.py: the table of the routes of src/ai_ha/web/routes, those of
-- health.py and stream.py included, and which of them ask for the admin. The state is always given
-- by the program. FastAPI reads the parameters of a request, which are given here as it has checked
-- them; the static files are left out.
pub mod Outsider
pub mod Exposed
use ai_home_assistant.Config.Loader.{FileText}
use ai_home_assistant.Prelude.{
  ℕ, String, Option, none, some, Bool, true, false, List, [], ◌∷◌, if◌then◌else◌, nat_eq,
}
use ai_home_assistant.Prelude.Int.{ℤ}
use ai_home_assistant.Store.Rows.{EntityRow, EventRow}
use ai_home_assistant.Topology.Snapshots.{Codec}
use ai_home_assistant.Config.Toml.{Fields}
use ai_home_assistant.Health.{HealthMetrics, HealthReport, snapshot}
use ai_home_assistant.Service.{Service}
use ai_home_assistant.Web.Auth.{
  TokenFile, HttpBasicCredentials, Verdict, granted, auth_required, auth_invalid, file_not_found,
  require_admin,
}
use ai_home_assistant.Web.Areas.{AreaView, list_areas_route}
use ai_home_assistant.Web.Areas.Detail.{AreaDetail, EntityCount, area_detail, area_entities}
use ai_home_assistant.Web.Entities.{EntityView, EntityEvent, list_entities_route, entity_events}
use ai_home_assistant.Web.Events.{EventsFilter, EventsReply, list_events_route}
use ai_home_assistant.Web.Topology.{
  TopologySummary, SnapshotView, SnapshotDetail, current_topology, list_snapshots, snapshot_detail,
}
use ai_home_assistant.Web.Settings.{PrivacyPayload, SettingsReply, get_privacy, update_privacy}
use ai_home_assistant.Web.Pages.{
  RoomView, Room, rooms, room, entities_page, timeline_page, settings_page,
}
use ai_home_assistant.Web.Stream.{subscribe}

-- The service, the token file and the file of the configuration.
pub record Site : Type 0 where
  pub service : Service
  pub token_file : TokenFile
  pub config_file : FileText

-- A websocket is named by the key of its queue.
pub data Request : Type 0 where
  get_health : Request
  get_topology : Request
  get_snapshots : ℕ → Request
  get_snapshot : ℤ → Request
  get_areas : Request
  get_area : String → Request
  get_area_entities : String → Request
  get_entities : Option String → Bool → Option String → ℕ → Request
  get_entity_events : String → ℕ → Option ℤ → Request
  get_events : EventsFilter → ℕ → Option String → Request
  get_settings : Request
  post_settings : PrivacyPayload → Request
  open_stream : ℕ → Request
  page_rooms : Request
  page_room : String → Request
  page_entities : Request
  page_timeline : Request
  page_settings : Request

-- `unauthorized` is the status 401 with its error, `failed_reading` the error of a token file that
-- is not there; `accepted` is an open websocket.
pub data Reply (Size : Type 0) : Type 0 where
  health_reply : HealthReport Size → Reply Size
  topology_reply : Option TopologySummary → Reply Size
  snapshots_reply : List SnapshotView → Reply Size
  snapshot_reply : Option SnapshotDetail → Reply Size
  areas_reply : List AreaView → Reply Size
  area_reply : Option AreaDetail → Reply Size
  area_entities_reply : List EntityCount → Reply Size
  entities_reply : List EntityView → Reply Size
  entity_events_reply : List EntityEvent → Reply Size
  events_reply : EventsReply → Reply Size
  settings_reply : SettingsReply → Reply Size
  accepted : Reply Size
  rooms_page : List RoomView → Reply Size
  room_page : Option Room → Reply Size
  entities_list : List EntityRow → Reply Size
  timeline_list : List EventRow → Reply Size
  patterns_list : List String → Reply Size
  unauthorized : String → Reply Size
  failed_reading : Reply Size

-- The routers that are built without `require_admin`.
abbrev pub is_open : Request → Bool
is_open get_health = true
is_open (open_stream client) = true
is_open _ = false

-- What stands for the other sides: JSON, the rounding, `str.strip`, `int`, `str`, the regular
-- expressions and TOML.
module _ (codec : Codec) {Size : Type 0} (megabytes : ℕ → Size) (strip : String → String)
    (int : String → Option ℤ) (str : ℕ → String) {Pattern : Type 0}
    (compile : String → Option Pattern) (loads : String → Option Fields)
    (dumps : Fields → String) where
  abbrev pub with_report : HealthReport Size × HealthMetrics → Site → Reply Size × Site
  with_report (report, m) s =
      (health_reply report, record s { service = record s.service { health = m } })

  abbrev pub with_file : SettingsReply × FileText → Site → Reply Size × Site
  with_file (r, file) s = (settings_reply r, record s { config_file = file })

  -- `stream`, up to the first event.
  abbrev pub accept : ℕ → Site → Reply Size × Site
  accept client s = (
    accepted,
    record s { service = record s.service { queues = subscribe client s.service.queues } },
  )

  -- The handlers of the routes.
  unfoldable pub route : ℕ → Request → Site → Reply Size × Site
  route now get_health s = with_report (snapshot megabytes now s.service.health) s
  route now get_topology s = (topology_reply (current_topology codec s.service.ingest.world.db), s)
  route now (get_snapshots limit) s =
      (snapshots_reply (list_snapshots limit s.service.ingest.world.db), s)
  route now (get_snapshot sid) s =
      (snapshot_reply (snapshot_detail codec sid s.service.ingest.world.db), s)
  route now get_areas s = (areas_reply (list_areas_route now s.service.ingest.world.db), s)
  route now (get_area area_id) s = (area_reply (area_detail area_id s.service.ingest.world.db), s)
  route now (get_area_entities area_id) s =
      (area_entities_reply (area_entities area_id s.service.ingest.world.db), s)
  route now (get_entities area_id orphan device_class limit) s = (
    entities_reply
        (list_entities_route area_id orphan device_class limit s.service.ingest.world.db),
    s,
  )
  route now (get_entity_events entity_id limit cursor) s =
      (entity_events_reply (entity_events entity_id limit cursor s.service.ingest.world.db), s)
  route now (get_events filter limit cursor) s =
      (events_reply (list_events_route int str filter limit cursor s.service.ingest.world.db), s)
  route now get_settings s = (settings_reply (get_privacy s.service), s)
  route now (post_settings payload) s =
      with_file (update_privacy compile loads dumps payload s.config_file) s
  route now (open_stream client) s = (
    accepted,
    record s { service = record s.service { queues = subscribe client s.service.queues } },
  )
  route now page_rooms s = (rooms_page (rooms now s.service.ingest.world.db), s)
  route now (page_room area_id) s = (room_page (room area_id s.service.ingest.world.db), s)
  route now page_entities s = (entities_list (entities_page s.service.ingest.world.db), s)
  route now page_timeline s = (timeline_list (timeline_page s.service.ingest.world.db), s)
  route now page_settings s = (patterns_list (settings_page s.service), s)

  -- A route that depends on `require_admin` runs after it has let the caller in.
  abbrev pub gated : Verdict → ℕ → Request → Site → Reply Size × Site
  gated granted now r s = route now r s
  gated auth_required now r s = (unauthorized "auth-required", s)
  gated auth_invalid now r s = (unauthorized "auth-invalid", s)
  gated file_not_found now r s = (failed_reading, s)

  unfoldable pub handle :
      Bool → Option HttpBasicCredentials → ℕ → Request → Site → Reply Size × Site
  unfolding route
  handle require_auth creds now r s =
      if is_open r
      then route now r s
      else gated (require_admin strip require_auth creds s.token_file) now r s

  -- Requests in the order in which they are served, each with its credentials and time.
  unfoldable pub serve :
      Bool → List (Option HttpBasicCredentials × ℕ × Request) → Site → List (Reply Size) × Site
  unfolding handle
  serve require_auth [] s = ([], s)
  serve require_auth ((creds, now, r) ∷ rs) s =
      let (reply, t) = handle require_auth creds now r s in
      let (replies, end) = serve require_auth rs t in (reply ∷ replies, end)
