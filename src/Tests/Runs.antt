-- ===== src/Tests/Runs.antt =====
-- Runs of the pipeline, the messages of the socket and the start of the service on small inputs.
use ai_home_assistant.Prelude.{string_eq}
use ai_home_assistant.Prelude.{List, true, false, none, some, [], ◌∷◌, ◌++◌, ◌≡◌, refl, arith, inr}
use ai_home_assistant.Store.Exec.{ok, empty_db, Db}
use ai_home_assistant.Store.Migrations.{Schema, apply_migrations}
use ai_home_assistant.Ingest.Batch.Writes.{history}
use ai_home_assistant.Ingest.Pipeline.{State, periodic_flush}
use ai_home_assistant.Ingest.Run.{run}
use ai_home_assistant.Ingest.Run.Delivery.{accepted}
use ai_home_assistant.Ingest.Run.Inbox.{replay, view, run_refines}
use ai_home_assistant.Ingest.Run.Bounds.{HasRoom, run-HasRoom}
use ai_home_assistant.Service.{Service}
use ai_home_assistant.Service.Messages.{WsEvent, on_ws_event}
use ai_home_assistant.Service.Messages.Refresh.{Spared, on_ws_event-Spared}
use ai_home_assistant.Service.Reload.{IsConsistent}
use ai_home_assistant.Service.Startup.{open_database, new_service, starts, start_up}
use ai_home_assistant.Service.Startup.Ready.{start_up_delivers, watch-start_up-IsConsistent}
use ai_home_assistant.Config.Loader.{readable, unreadable, load_config}
use ai_home_assistant.Config.Watcher.{watch}
use ai_home_assistant.Config.Schema.{model_validate}
use ai_home_assistant.Config.Toml.{find, set, texts}
use ai_home_assistant.Privacy.{hide_matcher}
use ai_home_assistant.Topology.Orchestrator.{apply}
use ai_home_assistant.Topology.Snapshots.{insert_if_changed, id_of_hash}
use ai_home_assistant.Store.Dao.{upsert_areas, upsert_devices, upsert_entities}
use ai_home_assistant.Prelude.Dict.{get}
use ai_home_assistant.Health.{set_ws_connected}
use ai_home_assistant.Adapter.Registry.{Frame, fetch_once, request, request_all}
use ai_home_assistant.Adapter.Registry.Replies.{reply}
use ai_home_assistant.Service.Messages.{initial_sync, refetch}
use ai_home_assistant.Service.Messages.Sync.{IsSynced, initial_sync_reports}
use ai_home_assistant.Tests.Data.{kitchen, ceiling, light, quiet, toy_codec}
use ai_home_assistant.Tests.Pipeline.{idle, calls}
use ai_home_assistant.Tests.Service.{literally, equals, at_home, accepts}
use ai_home_assistant.Tests.Config.{int, strict, loads, environ}

abbrev fresh : State
fresh = record { pipeline = idle; world = quiet }

run_refines_example :
    ((run calls fresh).0 ≡ ok tt) × (view (run calls fresh).1 ≡ replay calls (view fresh))
run_refines_example = run_refines calls fresh (refl, inr refl)

run-HasRoom_example : HasRoom (run calls fresh).1
run-HasRoom_example = run-HasRoom calls fresh (refl, inr refl) (omega arith)

abbrev pub areas_changed : WsEvent
areas_changed = record { event_type = some "area_registry_updated"; change = none }

on_ws_event-Spared_example :
    let (r, a') =
      on_ws_event toy_codec
        (λ _. "2026-01-01")
        (λ e. e.entity_id)
        (some areas_changed)
        []
        10
        1
        at_home in
    (r ≡ ok tt) × Spared at_home a'
on_ws_event-Spared_example =
    on_ws_event-Spared toy_codec (λ _. "2026-01-01") (λ e. e.entity_id) areas_changed
      "area_registry_updated" [] 10 1 at_home refl refl

abbrev pub empty_schema : Schema Db
empty_schema = record { tables = empty_db; version = 1 }

abbrev pub started : Service
started = new_service literally equals true ("light.k" ∷ []) ("light.k" ∷ []) empty_db [] 5

pub opens : open_database "ok" [] empty_schema ≡ some empty_db
unfolding open_database apply_migrations
opens = refl

pub does_start :
    start_up literally equals int strict loads "ok" [] environ (readable "new") empty_schema [] 5
    ≡ starts started
unfolding start_up open_database apply_migrations load_config model_validate hide_matcher find set
    texts
does_start = refl

start_up_delivers_example :
    let t = periodic_flush 3000 3000 (run calls started.ingest).1 in
    (t.buffer ≡ [])
    × (history t.world.db.events
        ≡ history empty_db.events ++ accepted started.ingest.pipeline.hide calls)
start_up_delivers_example =
    start_up_delivers literally equals int strict loads "ok" [] environ (readable "new")
      empty_schema empty_db 5 started calls 3 3000 3000 opens does_start
      (omega arith, (omega arith, (tt, (omega arith, tt)))) (omega arith)

watch-start_up-IsConsistent_example :
    IsConsistent literally equals
      (watch literally equals int strict loads
        ((environ, unreadable) ∷ (environ, readable "new") ∷ (environ, readable "old") ∷ [])
        started).0
watch-start_up-IsConsistent_example =
    watch-start_up-IsConsistent literally equals int strict loads "ok" [] environ (readable "new")
      empty_schema [] 5 started
      ((environ, unreadable) ∷ (environ, readable "new") ∷ (environ, readable "old") ∷ [])
      does_start

abbrev pub greetings : List Frame
greetings =
    accepts ∷ accepts ∷ reply 1 (kitchen ∷ []) ∷ reply 2 (ceiling ∷ []) ∷ reply 3 (light ∷ []) ∷ []

abbrev alone : Service
alone = record at_home { health = record at_home.health { ws_connected = false } }

connects : (initial_sync toy_codec greetings 100 alone).health.ws_connected ≡ true
unfolding initial_sync refetch fetch_once request_all request apply insert_if_changed id_of_hash
    upsert_areas get upsert_devices upsert_entities set_ws_connected
connects = refl

initial_sync_reports_example :
    IsSynced toy_codec 100 alone greetings (initial_sync toy_codec greetings 100 alone)
initial_sync_reports_example =
    initial_sync_reports toy_codec 100 alone greetings (refl, tt) refl connects
