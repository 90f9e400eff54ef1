-- ===== src/Service/Startup/Begun.antt =====
-- What a start of src/ai_ha/main.py that succeeds has found, and the service that it makes of it.
use ai_home_assistant.Prelude.{
  ℕ, String, Option, none, some, Bool, List, [], ◌≡◌, refl, arith, inl, append-nil,
}
use ai_home_assistant.Store.Exec.{Db}
use ai_home_assistant.Privacy.{Built, built, refused, hide_matcher}
use ai_home_assistant.Privacy.Matching.{hide_matcher-matches, hide_matcher-Accepted}
use ai_home_assistant.Ingest.Batch.Writes.{history}
use ai_home_assistant.Ingest.Pipeline.{start}
use ai_home_assistant.Ingest.Pipeline.Conservation.{taken_in}
use ai_home_assistant.Ingest.Run.Progress.{IsReady}
use ai_home_assistant.Archive.{new_writer}
use ai_home_assistant.Config.Schema.{AppConfig}
use ai_home_assistant.Config.Loader as Loader
use ai_home_assistant.Config.Loader.{
  decode_error, Environ, Loaded, loaded, type_error, io_error, toml_error, bad_port, invalid,
  load_config,
}
use ai_home_assistant.Service.{Service}
use ai_home_assistant.Service.Reload.{IsConsistent}
use ai_home_assistant.Service.Startup.{
  starts, new_state, new_service, after_open, after_matcher, after_load,
}

module _ {Pattern : Type 0} (compile : String → Option Pattern)
    (fullmatch : Pattern → String → Bool) where
  -- What a start that succeeds has found.
  pub record Begun (db : Option Db) (faults : List Bool) (now : ℕ) (a : Service) : Type 0 where
    pub compress : Bool
    pub patterns : List String
    pub rules : List Pattern
    pub tables : Db
    pub accepts : hide_matcher compile patterns ≡ built rules
    pub opened : db ≡ some tables
    pub service : a ≡ new_service compile fullmatch compress rules patterns tables faults now

  Begun-after_open :
      (compress : Bool) (db : Option Db) (faults : List Bool) (now : ℕ) (a : Service)
      (patterns : List String) (cs : List Pattern)
      → hide_matcher compile patterns ≡ built cs
      → after_open compile fullmatch compress db cs patterns faults now ≡ starts a
      → Begun db faults now a
  Begun-after_open compress none faults now a patterns cs acc h = cc
  Begun-after_open compress (some d) faults now a patterns cs acc h = record {
    compress = compress;
    patterns = patterns;
    rules = cs;
    tables = d;
    accepts = acc;
    opened = refl;
    service = ground arith;
  }

  Begun-after_matcher :
      (compress : Bool) (b : Built (List Pattern)) (db : Option Db) (faults : List Bool) (now : ℕ)
      (a : Service) (patterns : List String)
      → hide_matcher compile patterns ≡ b
      → after_matcher compile fullmatch compress b db patterns faults now ≡ starts a
      → Begun db faults now a
  Begun-after_matcher compress (built cs) db faults now a patterns acc h =
      Begun-after_open compress db faults now a patterns cs acc h
  Begun-after_matcher compress (refused x) db faults now a patterns acc h = cc

  pub Begun-after_load :
      {Float : Type 0} (l : Loaded (AppConfig Float)) (db : Option Db) (faults : List Bool)
      (now : ℕ) (a : Service)
      → after_load compile fullmatch l db faults now ≡ starts a
      → Begun db faults now a
  Begun-after_load (loaded cfg) db faults now a h =
      let patterns = cfg.privacy.hide_entities_pattern in
      Begun-after_matcher cfg.archive.compress (hide_matcher compile patterns) db faults now a
        patterns refl h
  Begun-after_load (Loader.refused type_error) db faults now a h = cc
  Begun-after_load (Loader.refused decode_error) db faults now a h = cc
  Begun-after_load (Loader.refused io_error) db faults now a h = cc
  Begun-after_load (Loader.refused toml_error) db faults now a h = cc
  Begun-after_load (Loader.refused bad_port) db faults now a h = cc
  Begun-after_load (Loader.refused invalid) db faults now a h = cc

  pub new_service-IsConsistent :
      (compress : Bool) (cs : List Pattern) (patterns : List String) (db : Db) (faults : List Bool)
      (now : ℕ)
      → hide_matcher compile patterns ≡ built cs
      → IsConsistent compile fullmatch
          (new_service compile fullmatch compress cs patterns db faults now)
  unfolding new_service new_state start
  new_service-IsConsistent compress cs patterns db faults now new =
      let accepted = hide_matcher-Accepted compile patterns cs new in
      let (cs', new', same) = hide_matcher-matches compile fullmatch patterns accepted in
      let e : cs ≡ cs' = cc in rw e same

  pub new_service-IsReady :
      (compress : Bool) (cs : List Pattern) (patterns : List String) (db : Db) (now m : ℕ)
      → IsReady 1000 m (new_service compile fullmatch compress cs patterns db [] now).ingest
  unfolding new_service new_state start
  new_service-IsReady compress cs patterns db now m = record {
    faultless = refl;
    task = refl;
    going = refl;
    interval = refl;
    stamp = inl (refl, refl);
  }

  pub taken_in-new_service :
      (compress : Bool) (cs : List Pattern) (patterns : List String) (db : Db) (faults : List Bool)
      (now : ℕ)
      → taken_in (new_service compile fullmatch compress cs patterns db faults now).ingest
        ≡ history db.events
  unfolding new_service new_state start
  taken_in-new_service compress cs patterns db faults now = append-nil (history db.events)

  pub archive-new_service :
      (compress : Bool) (cs : List Pattern) (patterns : List String) (db : Db) (faults : List Bool)
      (now : ℕ)
      → (new_service compile fullmatch compress cs patterns db faults now).jsonl
        ≡ new_writer compress
  unfolding new_service
  archive-new_service compress cs patterns db faults now = refl
