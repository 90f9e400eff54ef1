-- ===== src/Tests/Main.antt =====
-- The whole run of the program on small inputs, from the start to the exit.
use Prim.Native.String.{◌++◌ as ◌+++◌}
use ai_home_assistant.Prelude.{string_eq, none, true, [], ◌++◌, ◌≡◌, ◌∷◌, refl}
use ai_home_assistant.Store.Exec.{empty_db}
use ai_home_assistant.Ingest.Batch.Writes.{history}
use ai_home_assistant.Prelude.Dict.{get}
use ai_home_assistant.Archive.View.{text_of}
use ai_home_assistant.Archive.Log.{lines_at}
use ai_home_assistant.Config.Loader.{undecodable, readable, load_config}
use ai_home_assistant.Service.Startup.{start_up}
use ai_home_assistant.Service.Session.Kept.{gains}
use ai_home_assistant.Service.Session.Archived.{archives}
use ai_home_assistant.Service.Main.{traceback, Found, on_files, run_service}
use ai_home_assistant.Service.Main.Delivers.{Complete, run_service-Complete}
use ai_home_assistant.Tests.Data.{toy_codec}
use ai_home_assistant.Tests.Service.{literally, equals}
use ai_home_assistant.Tests.Config.{int, strict, loads, environ}
use ai_home_assistant.Tests.Runs.{started, empty_schema, opens, does_start}
use ai_home_assistant.Tests.Session.{life}

abbrev found : Found
found = record {
  integrity = "ok";
  migrations = [];
  schema = empty_schema;
  archive = ("2026-01-01.jsonl.gz", "old\n") ∷ [];
  token_file = none;
  fresh = "secret";
  started = 5;
}

run_service-Complete_example :
    Complete
      (history empty_db.events
        ++ gains toy_codec
            (λ _. "2026-01-01")
            (λ e. e.entity_id)
            literally
            equals
            int
            strict
            loads
            life
            (on_files found.archive started, true))
      (λ path.
        text_of (get path found.archive)
        +++ lines_at started.jsonl.compress path (
            archives
              (λ _. "2026-01-01")
              (λ e. e.entity_id)
              toy_codec
              literally
              equals
              int
              strict
              loads
              life
              (on_files found.archive started, true)))
      (run_service toy_codec
        (λ _. "2026-01-01")
        (λ e. e.entity_id)
        (λ t. t)
        literally
        equals
        int
        strict
        loads
        environ
        (readable "new")
        found
        []
        life
        3000)
run_service-Complete_example =
    run_service-Complete toy_codec (λ _. "2026-01-01") (λ e. e.entity_id) (λ t. t) literally equals
      int strict loads environ (readable "new") found empty_db started life 3000 opens does_start

-- A configuration file that is not UTF-8.
garbled :
    (run_service toy_codec
      (λ _. "2026-01-01")
      (λ e. e.entity_id)
      (λ t. t)
      literally
      equals
      int
      strict
      loads
      environ
      undecodable
      found
      []
      life
      3000).exit
    ≡ traceback
unfolding run_service start_up load_config
garbled = refl
