-- ===== src/Service/Session/Sound.antt =====
-- The life of the service of src/ai_ha/main.py where no write fails: what it takes in, and that its
-- shutdown stores all of it.
use ai_home_assistant.Prelude.{
  ℕ, String, Option, none, some, Bool, List, [], ◌++◌, ◌≡◌, refl, ◌∙◌, sym, inl, inr, ◌==◌,
  string_eq, Bool-cases, append-nil,
}
use ai_home_assistant.Prelude.Texts.{ends_with}
use ai_home_assistant.Store.Exec.{Result, ok, raise, World}
use ai_home_assistant.Topology.EntityIndex.{EntityIndex}
use ai_home_assistant.Topology.Payload.{TopologyPayload}
use ai_home_assistant.Topology.Snapshots.{Codec}
use ai_home_assistant.Topology.Orchestrator.{apply}
use ai_home_assistant.Topology.Orchestrator.Quiet.{faults-apply}
use ai_home_assistant.Privacy.{Built, built, refused, hide_matcher}
use ai_home_assistant.Ingest.Batch.{HaEvent}
use ai_home_assistant.Ingest.Pipeline.{Outcome, submit}
use ai_home_assistant.Ingest.Pipeline.Conservation.{taken_in, admitted, submit-Takes}
use ai_home_assistant.Ingest.Run.Delivery.{IsSound, submit-Sound}
use ai_home_assistant.Config.Schema.{AppConfig}
use ai_home_assistant.Config.Loader as Loader
use ai_home_assistant.Config.Loader.{
  decode_error, Loaded, loaded, io_error, toml_error, bad_port, invalid, type_error, load_config,
}
use ai_home_assistant.Config.Watcher.{on_load}
use ai_home_assistant.Adapter.Registry.{
  Frame, Fetch, fetched, connection_closed, auth_failed, request_failed, fetch_once,
}
use ai_home_assistant.Service.{Service, after_submit, on_state_changed, reloaded, on_cfg_change}
use ai_home_assistant.Service.Messages.{
  WsEvent, or_text, data_of, event_in, ha_event, after_apply, after_fetch, refetch, on_ws_event,
  synced, initial_sync,
}
use ai_home_assistant.Service.Messages.Refresh.{Spared-after_fetch}
use ai_home_assistant.Service.Session.{message}
use ai_home_assistant.Service.Session.Kept.{gained}

-- `b` is as sound as `a`, and has taken in `new` after what `a` had.
pub record Adds (new : List HaEvent) (a b : Service) : Type 0 where
  pub sound : IsSound b.ingest
  pub events : taken_in b.ingest ≡ taken_in a.ingest ++ new

pub Adds-same :
    (a b : Service) → IsSound b.ingest → taken_in b.ingest ≡ taken_in a.ingest → Adds [] a b
Adds-same a b h e = record { sound = h; events = e ∙ sym (append-nil (taken_in a.ingest)) }

Adds-on_state_changed :
    (day_of : ℕ → String) (line_of : HaEvent → String) (event : HaEvent) (now mono : ℕ)
    (a : Service)
    → IsSound a.ingest
    → Adds
        (admitted a.ingest.pipeline.hide event)
        a
        (on_state_changed day_of line_of event now mono a).1
unfolding on_state_changed
Adds-on_state_changed day_of line_of event now mono a h =
    let (returned, kept) = submit-Sound event now mono a.ingest h in
    ends (submit event now mono a.ingest) kept
      (submit-Takes event now mono a.ingest returned).events
  where
    ends :
        (o : Outcome)
        → IsSound o.1
        → taken_in o.1 ≡ taken_in a.ingest ++ admitted a.ingest.pipeline.hide event
        → Adds (admitted a.ingest.pipeline.hide event) a (after_submit day_of line_of o event a).1
    ends (ok _, s) k e = record { sound = k; events = e }
    ends (raise x, s) k e = record { sound = k; events = e }

module _ (codec : Codec) where
  IsSound-after_fetch :
      (f : Fetch TopologyPayload) (ts : ℕ) (a : Service)
      → IsSound a.ingest
      → IsSound (after_fetch codec f ts a).1.ingest
  IsSound-after_fetch (fetched p) ts a h =
      ends (apply codec p ts a.ingest.pipeline.index a.ingest.world)
        (faults-apply codec p ts a.ingest.pipeline.index a.ingest.world h.0)
    where
      ends :
          (o : Result (ℕ × Bool) × World × EntityIndex)
          → o.1.faults ≡ []
          → IsSound (after_apply codec o a).1.ingest
      ends (ok (sid, new), w, index) e = (e, h.1)
      ends (raise x, w, index) e = (e, h.1)
  IsSound-after_fetch connection_closed ts a h = h
  IsSound-after_fetch auth_failed ts a h = h
  IsSound-after_fetch request_failed ts a h = h

  pub Adds-initial_sync :
      (frames : List Frame) (now : ℕ) (a : Service)
      → IsSound a.ingest
      → Adds [] a (initial_sync codec frames now a)
  unfolding initial_sync refetch
  Adds-initial_sync frames now a h =
      ends (after_fetch codec (fetch_once frames) now a)
        (IsSound-after_fetch (fetch_once frames) now a h)
        (Spared-after_fetch codec now (fetch_once frames) a).events
    where
      ends :
          (o : Option (Result (Unit {0})) × Service)
          → IsSound o.1.ingest
          → taken_in o.1.ingest ≡ taken_in a.ingest
          → Adds [] a (synced o.0 o.1)
      ends (none, b) k e = Adds-same a b k e
      ends (some (ok _), b) k e = Adds-same a (synced (some (ok tt)) b) k e
      ends (some (raise x), b) k e = Adds-same a b k e

  module _ (day_of : ℕ → String) (line_of : HaEvent → String) where
    pub Adds-on_ws_event :
        (m : Option WsEvent) (frames : List Frame) (now mono : ℕ) (a : Service)
        → IsSound a.ingest
        → Adds
            (gained (message m frames now mono) a)
            a
            (on_ws_event codec day_of line_of m frames now mono a).1
    unfolding on_ws_event refetch
    Adds-on_ws_event m frames now mono a h =
        let kind = or_text "" (event_in m).event_type in
        let event = ha_event now (data_of (event_in m).change) in
        elim (Bool-cases (kind == "state_changed")) [
          | inl state ↦ rw state (Adds-on_state_changed day_of line_of event now mono a h)
          | inr other ↦ elim (Bool-cases (ends_with "_registry_updated" kind)) [
            | inl registry ↦
                rw (other, registry)
                  (Adds-same a (after_fetch codec (fetch_once frames) now a).1
                    (IsSound-after_fetch (fetch_once frames) now a h)
                    (Spared-after_fetch codec now (fetch_once frames) a).events)
            | inr neither ↦ rw (other, neither) (Adds-same a a h refl)
          ]
        ]

module _ {Pattern : Type 0} (compile : String → Option Pattern)
    (fullmatch : Pattern → String → Bool) where
  Adds-on_cfg_change :
      (patterns : List String) (a : Service)
      → IsSound a.ingest
      → Adds [] a (on_cfg_change compile fullmatch patterns a)
  unfolding on_cfg_change
  Adds-on_cfg_change patterns a h = ends (hide_matcher compile patterns)
    where
      ends : (b : Built (List Pattern)) → Adds [] a (reloaded compile fullmatch patterns b a)
      ends (built cs) = Adds-same a (reloaded compile fullmatch patterns (built cs) a) h refl
      ends (refused x) = Adds-same a (reloaded compile fullmatch patterns (refused x) a) h refl

  pub Adds-on_load :
      {Float : Type 0} (r : Loaded (AppConfig Float)) (a : Service)
      → IsSound a.ingest
      → Adds [] a (on_load compile fullmatch r a).0
  unfolding on_load
  Adds-on_load (loaded cfg) a h = Adds-on_cfg_change _ a h
  Adds-on_load (Loader.refused io_error) a h = Adds-same a a h refl
  Adds-on_load (Loader.refused decode_error) a h = Adds-same a a h refl
  Adds-on_load (Loader.refused toml_error) a h = Adds-same a a h refl
  Adds-on_load (Loader.refused bad_port) a h = Adds-same a a h refl
  Adds-on_load (Loader.refused invalid) a h = Adds-same a a h refl
  Adds-on_load (Loader.refused type_error) a h = Adds-same a a h refl
