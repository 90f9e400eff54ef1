-- ===== src/Service/Session/Kept.antt =====
-- What the service of src/ai_ha/main.py keeps of the events, over its whole life.
use ai_home_assistant.Prelude.{
  ℕ, String, Option, none, some, Bool, true, false, List, [], ◌∷◌, ◌++◌, ◌≡◌, refl, inl, inr, ◌==◌,
  string_eq, if◌then◌else◌, Bool-cases, append_assoc, append-nil,
}
use ai_home_assistant.Prelude.Covers.{Covers, Covers-refl, Covers-trans, Covers-append}
use ai_home_assistant.Prelude.Int.{ℤ}
use ai_home_assistant.Prelude.Texts.{ends_with}
use ai_home_assistant.Store.Exec.{Result, ok, raise}
use ai_home_assistant.Topology.Snapshots.{Codec}
use ai_home_assistant.Privacy.{Built, built, refused, hide_matcher}
use ai_home_assistant.Ingest.Batch.{HaEvent}
use ai_home_assistant.Ingest.Pipeline.{Outcome, submit, stop}
use ai_home_assistant.Ingest.Pipeline.Conservation.{taken_in, admitted}
use ai_home_assistant.Ingest.Run.Loss.{Keeps, Keeps-submit, Keeps-periodic_flush, Keeps-stop}
use ai_home_assistant.Config.Toml.{Fields}
use ai_home_assistant.Config.Schema.{Pydantic, AppConfig}
use ai_home_assistant.Config.Loader as Loader
use ai_home_assistant.Config.Loader.{
  decode_error, Loaded, loaded, io_error, toml_error, bad_port, invalid, type_error, load_config,
}
use ai_home_assistant.Config.Watcher.{on_load}
use ai_home_assistant.Adapter.Registry.{Frame, fetch_once}
use ai_home_assistant.Service.{Service, after_submit, on_state_changed, reloaded, on_cfg_change}
use ai_home_assistant.Service.Messages.{
  WsEvent, or_text, data_of, event_in, ha_event, after_fetch, refetch, on_ws_event, synced,
  initial_sync,
}
use ai_home_assistant.Service.Messages.Refresh.{Spared-after_fetch}
use ai_home_assistant.Service.Session.{
  Input, message, first_sync, wake, changed, after_stop, shut_down, react, session,
}

-- `b` has taken in what `a` had and then `new`, in order, and nothing else, maybe with some again.
abbrev Holds : List HaEvent → Service → Service → Type 0
Holds new a b = Covers (taken_in a.ingest ++ new) (taken_in b.ingest)

Holds-same : (a b : Service) → taken_in b.ingest ≡ taken_in a.ingest → Holds [] a b
Holds-same a b e = rw (append-nil (taken_in a.ingest), e) (Covers-refl (taken_in a.ingest))

-- The event that a message brings, unless the matcher hides its entity.
abbrev pub gained : Input → Service → List HaEvent
gained (message m frames now mono) a =
    if or_text "" (event_in m).event_type == "state_changed"
    then admitted a.ingest.pipeline.hide (ha_event now (data_of (event_in m).change))
    else []
gained (first_sync frames now) a = []
gained (wake now mono) a = []
gained (changed env file) a = []

Holds-on_state_changed :
    (day_of : ℕ → String) (line_of : HaEvent → String) (event : HaEvent) (now mono : ℕ)
    (a : Service)
    → Holds
        (admitted a.ingest.pipeline.hide event)
        a
        (on_state_changed day_of line_of event now mono a).1
unfolding on_state_changed
Holds-on_state_changed day_of line_of event now mono a =
    ends (submit event now mono a.ingest) (Keeps-submit event now mono a.ingest)
  where
    ends :
        (o : Outcome)
        → Keeps (admitted a.ingest.pipeline.hide event) a.ingest o.1
        → Holds (admitted a.ingest.pipeline.hide event) a (after_submit day_of line_of o event a).1
    ends (ok _, s) k = k.events
    ends (raise x, s) k = k.events

Holds-on_cfg_change :
    {Pattern : Type 0} (compile : String → Option Pattern) (fullmatch : Pattern → String → Bool)
    (patterns : List String) (a : Service)
    → Holds [] a (on_cfg_change compile fullmatch patterns a)
unfolding on_cfg_change
Holds-on_cfg_change {Pattern = Pattern} compile fullmatch patterns a =
    ends (hide_matcher compile patterns)
  where
    ends : (b : Built (List Pattern)) → Holds [] a (reloaded compile fullmatch patterns b a)
    ends (built cs) = Holds-same a (reloaded compile fullmatch patterns (built cs) a) refl
    ends (refused x) = Holds-same a (reloaded compile fullmatch patterns (refused x) a) refl

Holds-shut_down : (now : ℕ) (a : Service) → Holds [] a (shut_down now a).1
unfolding shut_down
Holds-shut_down now a = ends (stop now a.ingest) (Keeps-stop now a.ingest)
  where
    ends : (o : Outcome) → Keeps [] a.ingest o.1 → Holds [] a (after_stop o a).1
    ends (ok _, s) k = k.events
    ends (raise x, s) k = k.events

Holds-then :
    (new later : List HaEvent) (a b : Service) (all : List HaEvent)
    → Holds new a b
    → Covers (taken_in b.ingest ++ later) all
    → Covers (taken_in a.ingest ++ (new ++ later)) all
Holds-then new later a b all k rest =
    let here : Covers (taken_in a.ingest ++ (new ++ later)) (taken_in b.ingest ++ later) =
      rw (← append_assoc (taken_in a.ingest) new later) (Covers-append later k) in
    Covers-trans here rest

module _ (codec : Codec) (day_of : ℕ → String) (line_of : HaEvent → String) where
  Holds-on_ws_event :
      (m : Option WsEvent) (frames : List Frame) (now mono : ℕ) (a : Service)
      → Holds
          (gained (message m frames now mono) a)
          a
          (on_ws_event codec day_of line_of m frames now mono a).1
  unfolding on_ws_event refetch
  Holds-on_ws_event m frames now mono a =
      let kind = or_text "" (event_in m).event_type in
      let event = ha_event now (data_of (event_in m).change) in
      elim (Bool-cases (kind == "state_changed")) [
        | inl state ↦ rw state (Holds-on_state_changed day_of line_of event now mono a)
        | inr other ↦ elim (Bool-cases (ends_with "_registry_updated" kind)) [
          | inl registry ↦
              rw (other, registry)
                (Holds-same a (after_fetch codec (fetch_once frames) now a).1
                  (Spared-after_fetch codec now (fetch_once frames) a).events)
          | inr neither ↦ rw (other, neither) (Holds-same a a refl)
        ]
      ]

  Holds-initial_sync :
      (frames : List Frame) (now : ℕ) (a : Service) → Holds [] a (initial_sync codec frames now a)
  unfolding initial_sync refetch
  Holds-initial_sync frames now a =
      ends (after_fetch codec (fetch_once frames) now a)
        (Spared-after_fetch codec now (fetch_once frames) a).events
    where
      ends :
          (o : Option (Result (Unit {0})) × Service)
          → taken_in o.1.ingest ≡ taken_in a.ingest
          → Holds [] a (synced o.0 o.1)
      ends (none, b) e = Holds-same a b e
      ends (some (ok _), b) e = Holds-same a b e
      ends (some (raise x), b) e = Holds-same a b e

  module _ {Pattern : Type 0} (compile : String → Option Pattern)
      (fullmatch : Pattern → String → Bool) {Float : Type 0} where
    Holds-on_load :
        (r : Loaded (AppConfig Float)) (a : Service) → Holds [] a (on_load compile fullmatch r a).0
    unfolding on_load
    Holds-on_load (loaded cfg) a = Holds-on_cfg_change compile fullmatch _ a
    Holds-on_load (Loader.refused io_error) a = Holds-same a a refl
    Holds-on_load (Loader.refused decode_error) a = Holds-same a a refl
    Holds-on_load (Loader.refused toml_error) a = Holds-same a a refl
    Holds-on_load (Loader.refused bad_port) a = Holds-same a a refl
    Holds-on_load (Loader.refused invalid) a = Holds-same a a refl
    Holds-on_load (Loader.refused type_error) a = Holds-same a a refl

    module _ (int : String → Option ℤ) (py : Pydantic Float) (loads : String → Option Fields) where
      Holds-react :
          (i : Input) (s : Service × Bool)
          → Holds
              (gained i s.0)
              s.0
              (react codec day_of line_of compile fullmatch int py loads i s).0
      unfolding react
      Holds-react (message m frames now mono) (a, watching) = Holds-on_ws_event m frames now mono a
      Holds-react (first_sync frames now) (a, watching) = Holds-initial_sync frames now a
      Holds-react (wake now mono) (a, watching) = (Keeps-periodic_flush now mono a.ingest).events
      Holds-react (changed env file) (a, true) = Holds-on_load (load_config int py loads env file) a
      Holds-react (changed env file) (a, false) = Holds-same a a refl

      -- The events that the messages bring and that the matcher of their moment does not hide.
      unfoldable pub gains : List Input → Service × Bool → List HaEvent
      gains [] s = []
      gains (i ∷ is) s =
          gained i s.0 ++ gains is (react codec day_of line_of compile fullmatch int py loads i s)

      pub session-Covers :
          (is : List Input) (s : Service × Bool)
          → Covers
              (taken_in s.0.ingest ++ gains is s)
              (taken_in (session codec day_of line_of compile fullmatch int py loads is s).0.ingest)
      unfolding session gains
      session-Covers [] s = Holds-same s.0 s.0 refl
      session-Covers (i ∷ is) s =
          let t = react codec day_of line_of compile fullmatch int py loads i s in
          Holds-then (gained i s.0) (gains is t) s.0 t.0 _ (Holds-react i s) (session-Covers is t)

      -- Over the whole life of the service, whatever writes fail, whatever the server answers to a
      -- refetch and whatever the configuration becomes: the events that were stored or buffered at
      -- the start and each state change that the matcher of its moment did not hide are stored or
      -- buffered after the shutdown, in the order in which they came, and no others. Some may be
      -- there twice.
      pub shut_down-session :
          (is : List Input) (s : Service × Bool) (now : ℕ)
          → let end = session codec day_of line_of compile fullmatch int py loads is s in
            Covers (taken_in s.0.ingest ++ gains is s) (taken_in (shut_down now end.0).1.ingest)
      shut_down-session is s now =
          let end = session codec day_of line_of compile fullmatch int py loads is s in
          Covers-trans (session-Covers is s)
            (rw (append-nil (taken_in end.0.ingest)) at (Holds-shut_down now end.0))
