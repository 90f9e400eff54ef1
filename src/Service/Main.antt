-- ===== src/Service/Main.antt =====
-- `_run` and `main` of src/ai_ha/main.py, from the environment to the exit code. The web server's
-- end is the end of the session; the wait for the tasks after it catches every error.
pub mod Delivers
pub mod Exits
use ai_home_assistant.Prelude.{ℕ, String, Option, none, some, Bool, true, List, ◌==◌, string_eq}
use ai_home_assistant.Prelude.Dict.{Dict}
use ai_home_assistant.Prelude.Int.{ℤ}
use ai_home_assistant.Store.Exec.{Db, Result, ok, raise}
use ai_home_assistant.Store.Migrations.{Migration, Schema}
use ai_home_assistant.Topology.Snapshots.{Codec}
use ai_home_assistant.Ingest.Batch.{HaEvent}
use ai_home_assistant.Config.Toml.{Fields}
use ai_home_assistant.Config.Schema.{Pydantic}
use ai_home_assistant.Config.Loader.{FileText, Environ}
use ai_home_assistant.Web.Auth.{TokenFile}
use ai_home_assistant.Service.{Service}
use ai_home_assistant.Service.Startup.{Startup, exits, crashes, starts, start_up}
use ai_home_assistant.Service.Startup.FirstRun.{first_run}
use ai_home_assistant.Service.Session.{Input, session, shut_down}

abbrev pub or_default : String → Option String → String
or_default d none = d
or_default d (some t) = t

-- An error that `_run` does not catch ends the process with a traceback.
pub data Exit : Type 0 where
  exit_code : ℕ → Exit
  traceback : Exit

-- How the process ends, the service that it leaves, if it started, what it printed of the token, and
-- the token file.
pub record Ended : Type 0 where
  pub exit : Exit
  pub service : Option Service
  pub printed : Option String
  pub token_file : TokenFile

-- What the process finds: the answer of the integrity check, the migrations of the package, the
-- database, the files of the archive, the token file, and a fresh token; and the time of the start.
-- The data directory is there or can be made: an error of `mkdir` is not modelled.
pub record Found : Type 0 where
  pub integrity : String
  pub migrations : List (Migration Db)
  pub schema : Schema Db
  pub archive : Dict String String
  pub token_file : TokenFile
  pub fresh : String
  pub started : ℕ

abbrev pub exit_of : Result (Unit {0}) → Exit
exit_of (ok _) = exit_code 0
exit_of (raise x) = traceback

abbrev pub ended : Result (Unit {0}) × Service → Option String × TokenFile → Ended
ended (r, a) (printed, file) = record {
  exit = exit_of r;
  service = some a;
  printed = printed;
  token_file = file;
}

-- The writer finds the files of its directory.
abbrev pub on_files : Dict String String → Service → Service
on_files files a = record a { jsonl = record a.jsonl { files = files } }

abbrev not_run : Exit → TokenFile → Ended
not_run e file = record { exit = e; service = none; printed = none; token_file = file }

module _ (codec : Codec) (day_of : ℕ → String) (line_of : HaEvent → String)
    (strip : String → String) {Pattern : Type 0} (compile : String → Option Pattern)
    (fullmatch : Pattern → String → Bool) {Float : Type 0} (int : String → Option ℤ)
    (py : Pydantic Float) (loads : String → Option Fields) where
  abbrev pub after_start : Startup → Found → List Input → ℕ → Ended
  after_start (exits n) found is now = not_run (exit_code n) found.token_file
  after_start crashes found is now = not_run traceback found.token_file
  after_start (starts a) found is now =
      let end =
        (session codec day_of line_of compile fullmatch int py loads is
          (on_files found.archive a, true)).0 in
      ended (shut_down now end) (first_run strip found.fresh found.token_file)

  -- The inputs come until the server ends, at the time that is the last argument. The writes to come
  -- may fail as `faults` says.
  unfoldable pub run_service : Environ → FileText → Found → List Bool → List Input → ℕ → Ended
  run_service env file found faults is now =
      after_start
        (start_up compile fullmatch int py loads found.integrity found.migrations env file
          found.schema faults found.started)
        found is now

  -- `main`, with the two variables of the environment that it reads. `file_at` is what reading
  -- a file gives and `found_in` what is in a data directory.
  unfoldable pub run_main :
      Option String
      → Option String
      → Environ
      → (String → FileText)
      → (String → Found)
      → List Bool
      → List Input
      → ℕ
      → Ended
  unfolding run_service
  run_main ai_ha_config ai_ha_data_dir env file_at found_in faults is now =
      run_service env (file_at (or_default "/data/config.toml" ai_ha_config))
        (found_in (or_default "/data" ai_ha_data_dir)) faults is now
