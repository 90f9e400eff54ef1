-- ===== src/Tests/Session.antt =====
-- The life of the service on small inputs, from the messages of the socket to the shutdown.
use ai_home_assistant.Prelude.{All, not, ◌==◌, string_eq, String}
use ai_home_assistant.Store.Rows.{EventRow}
use ai_home_assistant.Store.Dao.{EventQuery, list_events}
use ai_home_assistant.Config.Schema.{AppConfig}
use ai_home_assistant.Config.Loader.{readable, loaded}
use ai_home_assistant.Config.Loader.Saved.{with_patterns}
use ai_home_assistant.Privacy.Matching.{any_pattern}
use ai_home_assistant.Service.Session.Private.{session-private}
use ai_home_assistant.Tests.Config.{defaults}
use ai_home_assistant.Prelude.Covers.{Covers}
use ai_home_assistant.Prelude.{List, true, none, some, [], ◌∷◌, ◌++◌, ◌≡◌, refl, arith}
use ai_home_assistant.Store.Exec.{empty_db}
use ai_home_assistant.Ingest.Batch.Writes.{history}
use ai_home_assistant.Ingest.Pipeline.Conservation.{taken_in}
use ai_home_assistant.Service.{Service}
use ai_home_assistant.Service.Messages.{WsEvent}
use ai_home_assistant.Service.Messages.{ChangeData}
use ai_home_assistant.Service.Session.{
  Input, message, first_sync, wake, changed, session, shut_down,
}
use ai_home_assistant.Prelude.Dict.{get}
use ai_home_assistant.Privacy.{matches}
use ai_home_assistant.Topology.EntityIndex.{lookup}
use ai_home_assistant.Store.Dao.{increment_privacy_drop}
use ai_home_assistant.Ingest.Pipeline.{
  stop, periodic_flush, submit, start, drop_hidden, commit_locked,
}
use ai_home_assistant.Service.Messages.{on_ws_event}
use ai_home_assistant.Service.{on_state_changed}
use ai_home_assistant.Archive.View.{on_disk, contents}
use ai_home_assistant.Archive.Log.{lines_at}
use ai_home_assistant.Service.Session.Archived.{archives, shut_down-archives}
use Prim.Native.String.{◌++◌ as ◌+++◌}
use ai_home_assistant.Store.Exec.{ok}
use ai_home_assistant.Service.Session.Kept.{gains, shut_down-session}
use ai_home_assistant.Service.Startup.{new_service}
use ai_home_assistant.Config.Loader.{load_config}
use ai_home_assistant.Config.Schema.{model_validate}
use ai_home_assistant.Config.Toml.{find, set, texts}
use ai_home_assistant.Tests.Data.{toy_codec}
use ai_home_assistant.Tests.Pipeline.{failing}
use ai_home_assistant.Tests.Service.{literally, equals, at_home}
use ai_home_assistant.Tests.Config.{int, strict, loads, environ}
use ai_home_assistant.Tests.Runs.{
  started, empty_schema, opens, does_start, areas_changed, greetings,
}

abbrev lamp : ChangeData
lamp = record {
  entity_id = some "light.k";
  new_state = some (record { state = some "on"; context = none });
  old_state = none;
}

abbrev lamp_on : WsEvent
lamp_on = record { event_type = some "state_changed"; change = some lamp }

-- A life with a failing write, a lost connection and a new configuration.
abbrev pub life : List Input
life =
    message (some lamp_on) [] 10 1
    ∷ first_sync greetings 20
    ∷ wake 2000 2000
    ∷ message (some areas_changed) [] 2100 2100
    ∷ changed environ (readable "new")
    ∷ message (some lamp_on) [] 2200 2200
    ∷ []

abbrev busy : Service
busy = record at_home { ingest = failing }

shut_down-session_example :
    let end =
      session toy_codec
        (λ _. "2026-01-01")
        (λ e. e.entity_id)
        literally
        equals
        int
        strict
        loads
        life
        (busy, true) in
    Covers
      (taken_in busy.ingest
        ++ gains toy_codec
            (λ _. "2026-01-01")
            (λ e. e.entity_id)
            literally
            equals
            int
            strict
            loads
            life
            (busy, true))
      (taken_in (shut_down 3000 end.0).1.ingest)
shut_down-session_example =
    shut_down-session toy_codec (λ _. "2026-01-01") (λ e. e.entity_id) literally equals int strict
      loads life (busy, true) 3000

loads_new :
    load_config int strict loads environ (readable "new")
    ≡ loaded (with_patterns ("light.k" ∷ []) defaults)
unfolding load_config model_validate find set texts
loads_new = refl

asks_to_hide :
    (cfg : AppConfig String)
    → load_config int strict loads environ (readable "new") ≡ loaded cfg
    → any_pattern literally equals "light.k" cfg.privacy.hide_entities_pattern ≡ true
asks_to_hide cfg h =
    let same : with_patterns ("light.k" ∷ []) defaults ≡ cfg = ground (arith, loads_new, h) in
    rw (← same) refl

abbrev timeline : EventQuery
timeline = record {
  entity_id = none;
  area_id = none;
  since_ts = none;
  until_ts = none;
  cursor = none;
}

session-private_example :
    let end =
      session toy_codec
        (λ _. "2026-01-01")
        (λ e. e.entity_id)
        literally
        equals
        int
        strict
        loads
        life
        (started, true) in
    All
      (λ (r : EventRow). not (r.entity_id == "light.k") ≡ true)
      (list_events timeline 200 end.0.ingest.world.db)
unfolding history new_service
session-private_example =
    session-private "light.k" toy_codec (λ _. "2026-01-01") (λ e. e.entity_id) literally equals int
      strict loads "ok" [] environ (readable "new") empty_schema empty_db [] 5 started life timeline
      200 opens does_start refl tt (tt, (tt, (tt, (tt, (asks_to_hide, (tt, tt))))))

abbrev evening : List Input
evening = message (some lamp_on) [] 10 1 ∷ wake 20 20 ∷ []

stops :
    let end =
      session toy_codec
        (λ _. "2026-01-01")
        (λ e. e.entity_id)
        literally
        equals
        int
        strict
        loads
        evening
        (started, true) in
    (shut_down 3000 end.0).0 ≡ ok tt
unfolding shut_down stop session periodic_flush on_ws_event on_state_changed submit lookup get
    new_service start matches drop_hidden increment_privacy_drop commit_locked
stops = refl

shut_down-archives_example :
    let end =
      session toy_codec
        (λ _. "2026-01-01")
        (λ e. e.entity_id)
        literally
        equals
        int
        strict
        loads
        evening
        (started, true) in
    on_disk "2026-01-01.jsonl.gz" (shut_down 3000 end.0).1.jsonl
    ≡ contents "2026-01-01.jsonl.gz" started.jsonl
      +++ lines_at true "2026-01-01.jsonl.gz" (
          archives
            (λ _. "2026-01-01")
            (λ e. e.entity_id)
            toy_codec
            literally
            equals
            int
            strict
            loads
            evening
            (started, true))
unfolding new_service
shut_down-archives_example =
    shut_down-archives (λ _. "2026-01-01") (λ e. e.entity_id) toy_codec literally equals int strict
      loads "2026-01-01.jsonl.gz" evening (started, true) 3000 tt stops
