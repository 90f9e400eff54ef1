-- ===== src/Service/Session/Archived.antt =====
-- What the service of src/ai_ha/main.py leaves in the files of its archive, over its whole life.
use Prim.Native.String.{◌++◌ as ◌+++◌}
use ai_home_assistant.Prelude.{
  ℕ, String, Option, none, some, Bool, true, false, List, [], ◌∷◌, ◌++◌, ◌≡◌, refl, ◌∙◌, inl, inr,
  ◌==◌, string_eq, if◌then◌else◌, Bool-cases,
}
use ai_home_assistant.Prelude.Int.{ℤ}
use ai_home_assistant.Prelude.Texts.{ends_with}
use ai_home_assistant.Store.Exec.{Result, ok, raise}
use ai_home_assistant.Topology.Snapshots.{Codec}
use ai_home_assistant.Privacy.{Built, built, refused, hide_matcher}
use ai_home_assistant.Ingest.Batch.{HaEvent}
use ai_home_assistant.Ingest.Pipeline.{Outcome, submit, stop}
use ai_home_assistant.Archive.{JsonlWriter, close}
use ai_home_assistant.Archive.View.{on_disk, contents}
use ai_home_assistant.Archive.Append.{IsPaired}
use ai_home_assistant.Archive.Log.{Op, write, perform, perform_all, lines_at, perform_all-close}
use ai_home_assistant.Config.Toml.{Fields}
use ai_home_assistant.Config.Schema.{Pydantic, AppConfig}
use ai_home_assistant.Config.Loader as Loader
use ai_home_assistant.Config.Loader.{
  decode_error, Loaded, loaded, io_error, toml_error, bad_port, invalid, type_error, load_config,
}
use ai_home_assistant.Config.Watcher.{on_load}
use ai_home_assistant.Adapter.Registry.{Frame, fetch_once}
use ai_home_assistant.Service.{Service, after_submit, on_state_changed, reloaded, on_cfg_change}
use ai_home_assistant.Service.Messages.{
  WsEvent, or_text, data_of, event_in, ha_event, after_fetch, refetch, on_ws_event, synced,
  initial_sync,
}
use ai_home_assistant.Service.Messages.Refresh.{Spared-after_fetch}
use ai_home_assistant.Service.Session.{
  Input, message, first_sync, wake, changed, after_stop, shut_down, react, session,
}

perform_all-append :
    (os ps : List Op) (j : JsonlWriter)
    → perform_all (os ++ ps) j ≡ perform_all ps (perform_all os j)
unfolding perform_all
perform_all-append [] ps j = refl
perform_all-append (o ∷ os) ps j = perform_all-append os ps (perform o j)

-- `b` has done the operations on the archive of `a`, and no others.
abbrev Files : List Op → Service → Service → Type 0
Files os a b = b.jsonl ≡ perform_all os a.jsonl

module _ (day_of : ℕ → String) (line_of : HaEvent → String) where
  -- The line of an event that the pipeline has taken.
  abbrev pub line_after : Result (Unit {0}) → HaEvent → List Op
  line_after (ok _) e = write (day_of e.ts_ms) (line_of e) ∷ []
  line_after (raise x) e = []

  abbrev pub archived : Input → Service → List Op
  archived (message m frames now mono) a =
      let event = ha_event now (data_of (event_in m).change) in
      if or_text "" (event_in m).event_type == "state_changed"
      then line_after (submit event now mono a.ingest).0 event
      else []
  archived (first_sync frames now) a = []
  archived (wake now mono) a = []
  archived (changed env file) a = []

  Files-on_state_changed :
      (event : HaEvent) (now mono : ℕ) (a : Service)
      → Files
          (line_after (submit event now mono a.ingest).0 event)
          a
          (on_state_changed day_of line_of event now mono a).1
  unfolding on_state_changed perform perform_all
  Files-on_state_changed event now mono a = ends (submit event now mono a.ingest)
    where
      ends :
          (o : Outcome) → Files (line_after o.0 event) a (after_submit day_of line_of o event a).1
      ends (ok _, s) = refl
      ends (raise x, s) = refl

  module _ (codec : Codec) where
    Files-on_ws_event :
        (m : Option WsEvent) (frames : List Frame) (now mono : ℕ) (a : Service)
        → Files
            (archived (message m frames now mono) a)
            a
            (on_ws_event codec day_of line_of m frames now mono a).1
    unfolding on_ws_event refetch perform_all
    Files-on_ws_event m frames now mono a =
        let kind = or_text "" (event_in m).event_type in
        let event = ha_event now (data_of (event_in m).change) in
        elim (Bool-cases (kind == "state_changed")) [
          | inl state ↦ rw state (Files-on_state_changed event now mono a)
          | inr other ↦ elim (Bool-cases (ends_with "_registry_updated" kind)) [
            | inl registry ↦
                rw (other, registry) (Spared-after_fetch codec now (fetch_once frames) a).archive
            | inr neither ↦ rw (other, neither) refl
          ]
        ]

    archive-initial_sync :
        (frames : List Frame) (now : ℕ) (a : Service)
        → (initial_sync codec frames now a).jsonl ≡ a.jsonl
    unfolding initial_sync refetch
    archive-initial_sync frames now a =
        ends (after_fetch codec (fetch_once frames) now a)
          (Spared-after_fetch codec now (fetch_once frames) a).archive
      where
        ends :
            (o : Option (Result (Unit {0})) × Service)
            → o.1.jsonl ≡ a.jsonl
            → (synced o.0 o.1).jsonl ≡ a.jsonl
        ends (none, b) e = e
        ends (some (ok _), b) e = e
        ends (some (raise x), b) e = e

    module _ {Pattern : Type 0} (compile : String → Option Pattern)
        (fullmatch : Pattern → String → Bool) where
      archive-on_cfg_change :
          (patterns : List String) (a : Service)
          → (on_cfg_change compile fullmatch patterns a).jsonl ≡ a.jsonl
      unfolding on_cfg_change
      archive-on_cfg_change patterns a = ends (hide_matcher compile patterns)
        where
          ends :
              (b : Built (List Pattern)) → (reloaded compile fullmatch patterns b a).jsonl ≡ a.jsonl
          ends (built cs) = refl
          ends (refused x) = refl

      archive-on_load :
          {Float : Type 0} (r : Loaded (AppConfig Float)) (a : Service)
          → (on_load compile fullmatch r a).0.jsonl ≡ a.jsonl
      unfolding on_load
      archive-on_load (loaded cfg) a = archive-on_cfg_change _ a
      archive-on_load (Loader.refused io_error) a = refl
      archive-on_load (Loader.refused decode_error) a = refl
      archive-on_load (Loader.refused toml_error) a = refl
      archive-on_load (Loader.refused bad_port) a = refl
      archive-on_load (Loader.refused invalid) a = refl
      archive-on_load (Loader.refused type_error) a = refl

      module _ {Float : Type 0} (int : String → Option ℤ) (py : Pydantic Float)
          (loads : String → Option Fields) where
        Files-react :
            (i : Input) (s : Service × Bool)
            → Files
                (archived i s.0)
                s.0
                (react codec day_of line_of compile fullmatch int py loads i s).0
        unfolding react perform_all
        Files-react (message m frames now mono) (a, watching) =
            Files-on_ws_event m frames now mono a
        Files-react (first_sync frames now) (a, watching) = archive-initial_sync frames now a
        Files-react (wake now mono) (a, watching) = refl
        Files-react (changed env file) (a, true) =
            archive-on_load (load_config int py loads env file) a
        Files-react (changed env file) (a, false) = refl

        -- The lines of the state changes that the pipeline took without an error.
        unfoldable pub archives : List Input → Service × Bool → List Op
        archives [] s = []
        archives (i ∷ is) s =
            archived i s.0
            ++ archives is (react codec day_of line_of compile fullmatch int py loads i s)

        Files-session :
            (is : List Input) (s : Service × Bool)
            → Files
                (archives is s)
                s.0
                (session codec day_of line_of compile fullmatch int py loads is s).0
        unfolding session archives perform_all
        Files-session [] s = refl
        Files-session (i ∷ is) s =
            let t = react codec day_of line_of compile fullmatch int py loads i s in
            Files-session is t
            ∙ rw (Files-react i s, perform_all-append (archived i s.0) (archives is t) s.0.jsonl)
                refl

        -- Over the whole life of the service: when the pipeline stops without an error at the
        -- shutdown, each file of the archive holds what it held, or was to hold, at the start, and
        -- then one line for each state change that the pipeline had taken without an error and whose
        -- time is of the file's day, hidden or not, in the order in which they came.
        pub shut_down-archives :
            (path : String) (is : List Input) (s : Service × Bool) (now : ℕ)
            → IsPaired s.0.jsonl
            → let end = session codec day_of line_of compile fullmatch int py loads is s in
              (shut_down now end.0).0 ≡ ok tt
              → on_disk path (shut_down now end.0).1.jsonl
                ≡ contents path s.0.jsonl +++ lines_at s.0.jsonl.compress path (archives is s)
        unfolding shut_down
        shut_down-archives path is s now paired fine =
            let end = session codec day_of line_of compile fullmatch int py loads is s in
            closes (stop now end.0.ingest) end.0 fine
            ∙ rw (Files-session is s) (perform_all-close path (archives is s) s.0.jsonl paired)
          where
            closes :
                (o : Outcome) (a : Service)
                → (after_stop o a).0 ≡ ok tt
                → on_disk path (after_stop o a).1.jsonl ≡ on_disk path (close a.jsonl)
            closes (ok _, i) a h = refl
            closes (raise x, i) a h = cc
