-- ===== src/Tests/Web.antt =====
-- The web routes, the health report and the browsers' queues on small inputs.
use ai_home_assistant.Prelude.{
  All, ℕ, String, Option, none, some, true, false, if◌then◌else◌, List, [], ◌∷◌, ◌≡◌, refl, ◌↔◌,
  arith, ◌==◌, string_eq, nat_eq, map, count_if,
}
use ai_home_assistant.Prelude.Int.{ℤ, pos}
use ai_home_assistant.Prelude.Dict.{get}
use ai_home_assistant.Store.Exec.{Db, empty_db}
use ai_home_assistant.Store.Dao.{list_events, list_areas, get_counters_24h}
use ai_home_assistant.Health.{HealthMetrics, new_metrics, record_events, snapshot}
use ai_home_assistant.Health.Window.{within, snapshot-record_events}
use ai_home_assistant.Web.Stream.{publish_all}
use ai_home_assistant.Web.Stream.Latest.{publish_all-latest}
use ai_home_assistant.Web.Events.{view_of, events_page, EventsFilter, query_of, list_events_route}
use ai_home_assistant.Web.Events.Cursor.{list_events_route_repeats}
use ai_home_assistant.Web.Areas.{list_areas_route}
use ai_home_assistant.Web.Areas.Sums.{shown, list_areas_route-totals}
use ai_home_assistant.Web.Auth.{HttpBasicCredentials, granted, ensure_token, require_admin}
use ai_home_assistant.Service.Startup.FirstRun.{first_run, first_run_admits}
use ai_home_assistant.Web.Pages.{rooms}
use ai_home_assistant.Web.Pages.Rooms.{Opens, rooms-Opens}
use ai_home_assistant.Tests.Data.{row_at, unnamed_area, light_row}

abbrev fresh_metrics : HealthMetrics
fresh_metrics = record {
  start_ms = 0;
  ws_connected = false;
  event_log_recent = 5 ∷ [];
  hidden_total = 0;
  db_size_bytes = 0;
  topology_snapshot_id = none;
  wal_recovery_count = 0;
  privacy_compile_fail = 0;
  config_reload_fail = 0;
  ha_version = none;
}

starts_empty : (new_metrics 7).event_log_recent ≡ []
unfolding new_metrics
starts_empty = refl

snapshot-record_events_example :
    (snapshot
      (λ n. n)
      3600020
      (record_events (10 ∷ 30 ∷ 3600020 ∷ []) fresh_metrics)).0.events_per_hour
    ≡ count_if (within 3600020) (5 ∷ 10 ∷ 30 ∷ 3600020 ∷ [])
snapshot-record_events_example =
    snapshot-record_events (λ n. n) (10 ∷ 30 ∷ 3600020 ∷ []) fresh_metrics 3600020 (omega arith)
      (omega arith)

abbrev three_four : List ℕ
three_four = 30 ∷ 40 ∷ []

publish_all-latest_example :
    get 1 (publish_all 2 three_four ((1, 10 ∷ 20 ∷ []) ∷ [])) ≡ some three_four
unfolding get
publish_all-latest_example =
    publish_all-latest 1 three_four ((1, 10 ∷ 20 ∷ []) ∷ []) 1 (10 ∷ 20 ∷ []) refl (omega arith)

abbrev any_event : EventsFilter
any_event = record { since = none; until = none; area_id = none; entity_id = none }

-- One number, printed and read.
abbrev printed_20 : ℕ → String
printed_20 n = "20"

abbrev read_20 : String → Option ℤ
read_20 s = if s == "20" then some (pos 20) else none

abbrev three_events : Db
three_events = record empty_db {
  events = (3, row_at 30) ∷ (2, row_at 20) ∷ (1, row_at 10) ∷ [];
  event_seq = 3;
}

list_events_route_repeats_example :
    (list_events_route read_20 printed_20 any_event 2 none three_events
      ≡ events_page (record {
        events = map view_of (list_events (query_of any_event none) 2 three_events);
        next_cursor = some "20";
      }))
    × (list_events_route read_20 printed_20 any_event 2 (some "20") three_events
        ≡ list_events_route read_20 printed_20 any_event 2 none three_events)
unfolding list_events
list_events_route_repeats_example =
    list_events_route_repeats read_20 printed_20 any_event 2 three_events (row_at 20) refl
      (omega arith) refl refl (omega arith)

abbrev admin : HttpBasicCredentials
admin = record { username = "admin"; password = "secret" }

first_run_admits_example :
    (first_run (λ s. s) "other" (some ("secret", 384)) ≡ (none, some ("secret", 384)))
    × ((require_admin (λ s. s) true (some admin) (some ("secret", 384)) ≡ granted)
        ↔ ((admin.username ≡ "admin") × (some "secret" ≡ some admin.password)))
unfolding first_run ensure_token
first_run_admits_example = first_run_admits (λ s. s) "secret" "other" admin refl

abbrev counted : Db
counted = record empty_db {
  areas =
      (
        "kitchen",
        record {
          area_id = "kitchen";
          name = some "Kitchen";
          floor_id = none;
          icon = none;
          aliases = "[]";
          snapshot_id = 1;
          first_seen_at = 100;
          last_seen_at = 100;
        },
      )
      ∷ [];
  counters = (("kitchen", 1), 4) ∷ (("hall", 1), 2) ∷ (("kitchen", 2), 3) ∷ [];
}

abbrev sevens : List (String × ℕ)
sevens = ("kitchen", 7) ∷ []

list_areas_route-totals_example : map shown (list_areas_route 7200000 counted) ≡ sevens
unfolding get_counters_24h list_areas
list_areas_route-totals_example = list_areas_route-totals 7200000 counted

abbrev furnished : Db
furnished = record empty_db {
  areas = ("attic", unnamed_area) ∷ [];
  entities = ("light.k", record light_row { area_id = some "attic" }) ∷ [];
}

rooms-Opens_example : All (Opens furnished) (rooms 700000 furnished)
rooms-Opens_example = rooms-Opens 700000 furnished
