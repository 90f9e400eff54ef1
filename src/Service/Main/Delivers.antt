-- ===== src/Service/Main/Delivers.antt =====
-- The whole run of src/ai_ha/main.py where no write fails, from the start to the exit.
use Prim.Native.String.{◌++◌ as ◌+++◌}
use text.Mathlib.TextLemmas.{append-nil}
use ai_home_assistant.Prelude.{
  string_eq, ℕ, String, Option, some, Bool, true, List, [], ◌++◌, ◌≡◌, refl, ◌∙◌, ap,
}
use ai_home_assistant.Prelude.Dict.{Dict, get}
use ai_home_assistant.Archive.{new_writer}
use ai_home_assistant.Prelude.Int.{ℤ}
use ai_home_assistant.Store.Exec.{Db, Result, ok, raise}
use ai_home_assistant.Topology.Snapshots.{Codec}
use ai_home_assistant.Ingest.Batch.{HaEvent}
use ai_home_assistant.Ingest.Batch.Writes.{history}
use ai_home_assistant.Archive.View.{on_disk, text_of, contents}
use ai_home_assistant.Archive.Append.{IsPaired}
use ai_home_assistant.Archive.Log.{lines_at}
use ai_home_assistant.Config.Toml.{Fields}
use ai_home_assistant.Config.Schema.{Pydantic}
use ai_home_assistant.Config.Loader.{FileText, Environ}
use ai_home_assistant.Service.{Service}
use ai_home_assistant.Service.Startup.{open_database, starts, start_up}
use ai_home_assistant.Service.Startup.Ready.{taken_in-start_up, IsSound-start_up, archive-start_up}
use ai_home_assistant.Service.Startup.FirstRun.{first_run}
use ai_home_assistant.Service.Session.{Input, session, shut_down}
use ai_home_assistant.Service.Session.Kept.{gains}
use ai_home_assistant.Service.Session.Stored.{session-Stored}
use ai_home_assistant.Service.Session.Archived.{archives, shut_down-archives}
use ai_home_assistant.Service.Main.{on_files, exit_code, Found, Ended, ended, run_service}

-- The process has ended with status 0; the table holds `events`, nothing waits, and each file of the
-- archive holds what `lines` gives for it.
pub record Complete (events : List HaEvent) (lines : String → String) (e : Ended) : Type 0 where
  pub left : Service
  pub exit : e.exit ≡ exit_code 0
  pub service : e.service ≡ some left
  pub stored : history left.ingest.world.db.events ≡ events
  pub emptied : left.ingest.buffer ≡ []
  pub files : (path : String) → on_disk path left.jsonl ≡ lines path

Complete-ended :
    (events : List HaEvent) (lines : String → String) (o : Result (Unit {0}) × Service)
    (token : Option String × Option (String × ℕ))
    → o.0 ≡ ok tt
    → history o.1.ingest.world.db.events ≡ events
    → o.1.ingest.buffer ≡ []
    → ((path : String) → on_disk path o.1.jsonl ≡ lines path)
    → Complete events lines (ended o token)
Complete-ended events lines (ok _, a) token r e b f = record {
  left = a;
  exit = refl;
  service = refl;
  stored = e;
  emptied = b;
  files = f;
}
Complete-ended events lines (raise x, a) token r e b f = cc

on_files-new_writer :
    (compress : Bool) (files : Dict String String) (a : Service)
    → a.jsonl ≡ new_writer compress
    → IsPaired (on_files files a).jsonl
      × ((path : String) → contents path (on_files files a).jsonl ≡ text_of (get path files))
on_files-new_writer compress files a e = rw e (tt, λ path. append-nil (text_of (get path files)))

module _ (codec : Codec) (day_of : ℕ → String) (line_of : HaEvent → String)
    (strip : String → String) {Pattern : Type 0} (compile : String → Option Pattern)
    (fullmatch : Pattern → String → Bool) {Float : Type 0} (int : String → Option ℤ)
    (py : Pydantic Float) (loads : String → Option Fields) where
  -- When the database opens, the start succeeds and no write fails: whatever comes until the server
  -- ends, the process ends with status 0, the event table holds what it held at the start and then
  -- each state change that the matcher of its moment did not hide, once and in order, the buffer is
  -- empty, and each file of the archive holds its old text and then one line for each state change
  -- of its day, hidden or not, in order.
  pub run_service-Complete :
      (env : Environ) (file : FileText) (found : Found) (db : Db) (a : Service) (is : List Input)
      (now : ℕ)
      → open_database found.integrity found.migrations found.schema ≡ some db
      → start_up compile fullmatch int py loads found.integrity found.migrations env file
          found.schema [] found.started
        ≡ starts a
      → Complete
          (history db.events
            ++ gains codec day_of line_of compile fullmatch int py loads is
                (on_files found.archive a, true))
          (λ path.
            text_of (get path found.archive)
            +++ lines_at a.jsonl.compress path (
                archives day_of line_of codec compile fullmatch int py loads is
                  (on_files found.archive a, true)))
          (run_service codec day_of line_of strip compile fullmatch int py loads env file found []
            is now)
  unfolding run_service
  run_service-Complete env file found db a is now opens begun =
      let s : Service × Bool = (on_files found.archive a, true) in
      let new = gains codec day_of line_of compile fullmatch int py loads is s in
      let lines = archives day_of line_of codec compile fullmatch int py loads is s in
      let end = (session codec day_of line_of compile fullmatch int py loads is s).0 in
      let sound =
        IsSound-start_up compile fullmatch int py loads found.integrity found.migrations env file
          found.schema found.started a begun in
      let (returned, stored, emptied) =
        session-Stored codec day_of line_of compile fullmatch int py loads is s now sound in
      let taken =
        taken_in-start_up compile fullmatch int py loads found.integrity found.migrations env file
          found.schema db [] found.started a opens begun in
      let (compress, written) =
        archive-start_up compile fullmatch int py loads found.integrity found.migrations env file
          found.schema [] found.started a begun in
      let (paired, held) = on_files-new_writer compress found.archive a written in
      rw begun (
        Complete-ended _ _ (shut_down now end) (first_run strip found.fresh found.token_file)
          returned (stored ∙ ap (λ es. es ++ new) taken) emptied
          (λ path.
            shut_down-archives day_of line_of codec compile fullmatch int py loads path is s now
              paired returned
            ∙ ap (λ t. t +++ lines_at a.jsonl.compress path lines) (held path)))
