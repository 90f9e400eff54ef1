-- ===== src/Service/Startup.antt =====
-- The start of src/ai_ha/main.py, up to the running pipeline, with `Database.open` of
-- src/ai_ha/store/db.py. What creates the data directory is left out.
pub mod Begun
pub mod Ready
pub mod FirstRun
use ai_home_assistant.Prelude.{
  ℕ, String, Option, none, some, Bool, false, List, [], ◌∷◌, ◌==◌, string_eq, if◌then◌else◌,
}
use ai_home_assistant.Prelude.Int.{ℤ}
use ai_home_assistant.Store.Exec.{Db}
use ai_home_assistant.Store.Migrations.{
  Migration, Schema, Migrated, migrated, migration_error, apply_migrations,
}
use ai_home_assistant.Privacy.{Built, built, refused, hide_matcher, matches}
use ai_home_assistant.Ingest.Pipeline.{State, not_started, start}
use ai_home_assistant.Health.{new_metrics}
use ai_home_assistant.Archive.{new_writer}
use ai_home_assistant.Config.Toml.{Fields}
use ai_home_assistant.Config.Schema.{Pydantic, AppConfig}
use ai_home_assistant.Config.Loader as Loader
use ai_home_assistant.Config.Loader.{
  FileText, decode_error, Environ, Loaded, loaded, type_error, load_config,
}
use ai_home_assistant.Service.{Service}

-- `Database.open`: the integrity check, and then the migrations. An error gives `none`.
abbrev tables_of : Migrated Db → Option Db
tables_of (migrated d) = some d.tables
tables_of (migration_error d) = none

unfoldable pub open_database : String → List (Migration Db) → Schema Db → Option Db
open_database integrity ms d = if integrity == "ok" then tables_of (apply_migrations ms d) else none

pub data Startup : Type 0 where
  exits : ℕ → Startup
  crashes : Startup
  starts : Service → Startup

-- `batch_size` and `batch_interval_ms` have their defaults. The writes to come may fail as `faults`
-- says.
unfoldable pub new_state : (String → Bool) → Db → List Bool → State
new_state hide db faults = record {
  pipeline = record {
    index = [];
    hide = hide;
    batch_size = 100;
    batch_interval = 1000;
    buffer = [];
    first_added = none;
    stopped = false;
    flush_task = not_started;
  };
  world = record { db = db; faults = faults };
}

-- EXIT_CONFIG is 78, EXIT_DB_UNRECOVERABLE is 70.
module _ {Pattern : Type 0} (compile : String → Option Pattern)
    (fullmatch : Pattern → String → Bool) where
  unfoldable pub new_service : Bool → List Pattern → List String → Db → List Bool → ℕ → Service
  unfolding new_state
  new_service compress cs patterns db faults now = record {
    ingest = start (new_state (matches fullmatch cs) db faults);
    jsonl = new_writer compress;
    queues = [];
    health = new_metrics now;
    hide_pattern = patterns;
  }

  abbrev pub after_open : Bool → Option Db → List Pattern → List String → List Bool → ℕ → Startup
  after_open compress none cs patterns faults now = exits 70
  after_open compress (some db) cs patterns faults now =
      starts (new_service compress cs patterns db faults now)

  abbrev pub after_matcher :
      Bool → Built (List Pattern) → Option Db → List String → List Bool → ℕ → Startup
  after_matcher compress (built cs) db patterns faults now =
      after_open compress db cs patterns faults now
  after_matcher compress (refused x) db patterns faults now = exits 78

  module _ {Float : Type 0} where
    abbrev pub after_load : Loaded (AppConfig Float) → Option Db → List Bool → ℕ → Startup
    after_load (loaded cfg) db faults now =
        let patterns = cfg.privacy.hide_entities_pattern in
        after_matcher cfg.archive.compress (hide_matcher compile patterns) db patterns faults now
    after_load (Loader.refused decode_error) db faults now = crashes
    after_load (Loader.refused type_error) db faults now = crashes
    after_load (Loader.refused _) db faults now = exits 78

    module _ (int : String → Option ℤ) (py : Pydantic Float) (loads : String → Option Fields)
        (integrity : String) (migrations : List (Migration Db)) where
      -- The configuration is read first, and the database is opened last.
      unfoldable pub start_up : Environ → FileText → Schema Db → List Bool → ℕ → Startup
      unfolding new_service open_database
      start_up env file d faults now =
          after_load (load_config int py loads env file) (open_database integrity migrations d)
            faults now
