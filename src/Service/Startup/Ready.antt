-- ===== src/Service/Startup/Ready.antt =====
-- The service as the start of src/ai_ha/main.py leaves it, and what it then takes in.
use ai_home_assistant.Prelude.{
  ℕ, ◌+◌, ◌≤◌, String, Option, some, Bool, List, [], ◌++◌, ◌≡◌, ◌∙◌, ap, sym, arith, All,
}
use ai_home_assistant.Prelude.Int.{ℤ}
use ai_home_assistant.Store.Exec.{Db}
use ai_home_assistant.Store.Migrations.{Migration, Schema}
use ai_home_assistant.Ingest.Batch.Writes.{history}
use ai_home_assistant.Ingest.Pipeline.{periodic_flush}
use ai_home_assistant.Ingest.Pipeline.Conservation.{taken_in}
use ai_home_assistant.Ingest.Run.{Call, run}
use ai_home_assistant.Ingest.Run.Delivery.{IsSound, accepted}
use ai_home_assistant.Ingest.Run.Progress.{IsReady-IsSound, Until, tick_delivers}
use ai_home_assistant.Archive.{new_writer}
use ai_home_assistant.Config.Toml.{Fields}
use ai_home_assistant.Config.Schema.{Pydantic}
use ai_home_assistant.Config.Loader.{FileText, Environ, load_config}
use ai_home_assistant.Config.Watcher.{watch}
use ai_home_assistant.Config.Watcher.Applied.{watch-IsConsistent}
use ai_home_assistant.Service.{Service}
use ai_home_assistant.Service.Reload.{IsConsistent}
use ai_home_assistant.Service.Startup.{open_database, starts, start_up}
use ai_home_assistant.Service.Startup.Begun.{
  Begun-after_load, new_service-IsConsistent, new_service-IsReady, taken_in-new_service,
  archive-new_service,
}

module _ {Pattern : Type 0} (compile : String → Option Pattern)
    (fullmatch : Pattern → String → Bool) where
  module _ {Float : Type 0} (int : String → Option ℤ) (py : Pydantic Float)
      (loads : String → Option Fields) (integrity : String) (migrations : List (Migration Db))
      (env : Environ) (file : FileText) where
    -- A start that succeeds, whatever the configuration, leaves the pipeline hiding exactly what the
    -- patterns on display match.
    pub start_up-IsConsistent :
        (d : Schema Db) (faults : List Bool) (now : ℕ) (a : Service)
        → start_up compile fullmatch int py loads integrity migrations env file d faults now
          ≡ starts a
        → IsConsistent compile fullmatch a
    unfolding start_up
    start_up-IsConsistent d faults now a h =
        let db = open_database integrity migrations d in
        let b =
          Begun-after_load compile fullmatch (load_config int py loads env file) db faults now a
            h in
        rw b.service (
          new_service-IsConsistent compile fullmatch b.compress b.rules b.patterns b.tables faults
            now b.accepts)

    -- What a start that succeeds has taken in is what the opened database holds.
    pub taken_in-start_up :
        (d : Schema Db) (db : Db) (faults : List Bool) (now : ℕ) (a : Service)
        → open_database integrity migrations d ≡ some db
        → start_up compile fullmatch int py loads integrity migrations env file d faults now
          ≡ starts a
        → taken_in a.ingest ≡ history db.events
    unfolding start_up
    taken_in-start_up d db faults now a opens h =
        let found = open_database integrity migrations d in
        let b =
          Begun-after_load compile fullmatch (load_config int py loads env file) found faults now a
            h in
        let same : b.tables ≡ db = sym (let e = sym opens ∙ b.opened in ground (arith, e)) in
        rw b.service (
          taken_in-new_service compile fullmatch b.compress b.rules b.patterns b.tables faults now
          ∙ ap (λ d. history d.events) same)

    -- A start that succeeds where no write is to fail leaves the pipeline sound.
    pub IsSound-start_up :
        (d : Schema Db) (now : ℕ) (a : Service)
        → start_up compile fullmatch int py loads integrity migrations env file d [] now ≡ starts a
        → IsSound a.ingest
    unfolding start_up
    IsSound-start_up d now a h =
        let found = open_database integrity migrations d in
        let b =
          Begun-after_load compile fullmatch (load_config int py loads env file) found [] now a h in
        rw b.service (
          IsReady-IsSound 1000 0 _
            (new_service-IsReady compile fullmatch b.compress b.rules b.patterns b.tables now 0))

    -- It leaves the archive without an open file.
    pub archive-start_up :
        (d : Schema Db) (faults : List Bool) (now : ℕ) (a : Service)
        → start_up compile fullmatch int py loads integrity migrations env file d faults now
          ≡ starts a
        → (compress : Bool) × (a.jsonl ≡ new_writer compress)
    unfolding start_up
    archive-start_up d faults now a h =
        let found = open_database integrity migrations d in
        let b =
          Begun-after_load compile fullmatch (load_config int py loads env file) found faults now a
            h in
        (
          b.compress,
          rw b.service (
              archive-new_service compile fullmatch b.compress b.rules b.patterns b.tables faults
                now),
        )

    -- After a start that succeeds, and calls of the pipeline whose writes do not fail, the task's
    -- first waking that is a second or more after the last submission, at `m` at the latest, leaves
    -- the buffer empty: the table then holds what the opened database held and, after it, every
    -- submitted event that its matcher does not hide, each once and in order.
    pub start_up_delivers :
        (d : Schema Db) (db : Db) (t0 : ℕ) (a : Service) (cs : List Call) (m now mono : ℕ)
        → open_database integrity migrations d ≡ some db
        → start_up compile fullmatch int py loads integrity migrations env file d [] t0 ≡ starts a
        → All (Until m) cs
        → m + 1000 ≤ mono
        → let t = periodic_flush now mono (run cs a.ingest).1 in
          (t.buffer ≡ [])
          × (history t.world.db.events ≡ history db.events ++ accepted a.ingest.pipeline.hide cs)
    unfolding start_up
    start_up_delivers d db t0 a cs m now mono opens h u late =
        let found = open_database integrity migrations d in
        let b =
          Begun-after_load compile fullmatch (load_config int py loads env file) found [] t0 a h in
        let (e, stored) =
          tick_delivers 1000 m cs now mono a.ingest u
            (rw b.service
              (new_service-IsReady compile fullmatch b.compress b.rules b.patterns b.tables t0 m))
            late in
        let taken = taken_in-start_up d db [] t0 a opens h in
        (e, stored ∙ ap (λ es. es ++ accepted a.ingest.pipeline.hide cs) taken)

    -- After a start that succeeds, and whatever the file and the environment become later, also where
    -- a file is refused or ends the watcher, the pipeline hides exactly what the patterns on display
    -- match.
    pub watch-start_up-IsConsistent :
        (d : Schema Db) (faults : List Bool) (now : ℕ) (a : Service)
        (changes : List (Environ × FileText))
        → start_up compile fullmatch int py loads integrity migrations env file d faults now
          ≡ starts a
        → IsConsistent compile fullmatch (watch compile fullmatch int py loads changes a).0
    watch-start_up-IsConsistent d faults now a changes h =
        watch-IsConsistent compile fullmatch int py loads changes a
          (start_up-IsConsistent d faults now a h)
