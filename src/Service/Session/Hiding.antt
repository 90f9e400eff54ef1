-- ===== src/Service/Session/Hiding.antt =====
-- A hidden entity stays hidden while the service of src/ai_ha/main.py runs, as long as each loaded
-- configuration asks for it.
use ai_home_assistant.Prelude.{
  ℕ, String, Option, none, some, Bool, true, false, List, ◌≡◌, refl, ◌∙◌, ap, inl, inr, ◌==◌,
  string_eq, Bool-cases,
}
use ai_home_assistant.Prelude.Int.{ℤ}
use ai_home_assistant.Prelude.Texts.{ends_with}
use ai_home_assistant.Store.Exec.{Result, ok, raise}
use ai_home_assistant.Topology.Snapshots.{Codec}
use ai_home_assistant.Privacy.{hide_matcher}
use ai_home_assistant.Privacy.Matching.{any_pattern, Built-cases}
use ai_home_assistant.Ingest.Batch.{HaEvent}
use ai_home_assistant.Ingest.Pipeline.{Outcome, submit}
use ai_home_assistant.Ingest.Run.Loss.{Keeps-submit, Keeps-periodic_flush}
use ai_home_assistant.Config.Toml.{Fields}
use ai_home_assistant.Config.Schema.{Pydantic, AppConfig}
use ai_home_assistant.Config.Loader as Loader
use ai_home_assistant.Config.Loader.{
  decode_error, Environ, Loaded, loaded, io_error, toml_error, bad_port, invalid, type_error,
  load_config,
}
use ai_home_assistant.Config.Watcher.{on_load}
use ai_home_assistant.Adapter.Registry.{Frame, fetch_once}
use ai_home_assistant.Service.{Service, after_submit, on_state_changed, on_cfg_change}
use ai_home_assistant.Service.Reload.{hide-on_cfg_change}
use ai_home_assistant.Service.Messages.{
  WsEvent, or_text, data_of, event_in, ha_event, after_fetch, refetch, on_ws_event, synced,
  initial_sync,
}
use ai_home_assistant.Service.Messages.Refresh.{Spared-after_fetch}
use ai_home_assistant.Service.Session.{Input, message, first_sync, wake, changed, react}

module _ (k : String) where
  abbrev pub Hides : Service → Type 0
  Hides a = a.ingest.pipeline.hide k ≡ true

  Hides-on_cfg_change :
      {Pattern : Type 0} (compile : String → Option Pattern) (fullmatch : Pattern → String → Bool)
      (patterns : List String) (a : Service)
      → any_pattern compile fullmatch k patterns ≡ true
      → Hides a
      → Hides (on_cfg_change compile fullmatch patterns a)
  Hides-on_cfg_change compile fullmatch patterns a matched h =
      elim (Built-cases (hide_matcher compile patterns)) [
        | inl (cs, new) ↦ hide-on_cfg_change compile fullmatch patterns a cs new k ∙ matched
        | inr (x, bad) ↦ unfold on_cfg_change in rw bad h
      ]

  module _ (codec : Codec) (day_of : ℕ → String) (line_of : HaEvent → String) where
    hide-on_ws_event :
        (m : Option WsEvent) (frames : List Frame) (now mono : ℕ) (a : Service)
        → (on_ws_event codec day_of line_of m frames now mono a).1.ingest.pipeline.hide
          ≡ a.ingest.pipeline.hide
    unfolding on_ws_event refetch on_state_changed
    hide-on_ws_event m frames now mono a =
        let kind = or_text "" (event_in m).event_type in
        let event = ha_event now (data_of (event_in m).change) in
        elim (Bool-cases (kind == "state_changed")) [
          | inl state ↦ rw state (
              ends event (submit event now mono a.ingest)
                (Keeps-submit event now mono a.ingest).same_hide)
          | inr other ↦ elim (Bool-cases (ends_with "_registry_updated" kind)) [
            | inl registry ↦
                rw (other, registry) (Spared-after_fetch codec now (fetch_once frames) a).hide
            | inr neither ↦ rw (other, neither) refl
          ]
        ]
      where
        ends :
            (event : HaEvent) (o : Outcome)
            → o.1.hide ≡ a.ingest.pipeline.hide
            → (after_submit day_of line_of o event a).1.ingest.pipeline.hide
              ≡ a.ingest.pipeline.hide
        ends event (ok _, s) e = e
        ends event (raise x, s) e = e

    hide-initial_sync :
        (frames : List Frame) (now : ℕ) (a : Service)
        → (initial_sync codec frames now a).ingest.pipeline.hide ≡ a.ingest.pipeline.hide
    unfolding initial_sync refetch
    hide-initial_sync frames now a =
        ends (after_fetch codec (fetch_once frames) now a)
          (Spared-after_fetch codec now (fetch_once frames) a).hide
      where
        ends :
            (o : Option (Result (Unit {0})) × Service)
            → o.1.ingest.pipeline.hide ≡ a.ingest.pipeline.hide
            → (synced o.0 o.1).ingest.pipeline.hide ≡ a.ingest.pipeline.hide
        ends (none, b) e = e
        ends (some (ok _), b) e = e
        ends (some (raise x), b) e = e

    module _ {Pattern : Type 0} (compile : String → Option Pattern)
        (fullmatch : Pattern → String → Bool) {Float : Type 0} where
      Hides-on_load :
          (r : Loaded (AppConfig Float)) (a : Service)
          → ((cfg : AppConfig Float)
              → r ≡ loaded cfg
              → any_pattern compile fullmatch k cfg.privacy.hide_entities_pattern ≡ true)
          → Hides a
          → Hides (on_load compile fullmatch r a).0
      unfolding on_load
      Hides-on_load (loaded cfg) a m h = Hides-on_cfg_change compile fullmatch _ a (m cfg refl) h
      Hides-on_load (Loader.refused io_error) a m h = h
      Hides-on_load (Loader.refused decode_error) a m h = h
      Hides-on_load (Loader.refused toml_error) a m h = h
      Hides-on_load (Loader.refused bad_port) a m h = h
      Hides-on_load (Loader.refused invalid) a m h = h
      Hides-on_load (Loader.refused type_error) a m h = h

      module _ (int : String → Option ℤ) (py : Pydantic Float)
          (loads : String → Option Fields) where
        -- A configuration that is loaded has a pattern for the entity.
        abbrev pub AsksToHide : Input → Type 0
        AsksToHide (message m frames now mono) = Unit
        AsksToHide (first_sync frames now) = Unit
        AsksToHide (wake now mono) = Unit
        AsksToHide (changed env file) =
            (cfg : AppConfig Float)
            → load_config int py loads env file ≡ loaded cfg
            → any_pattern compile fullmatch k cfg.privacy.hide_entities_pattern ≡ true

        pub Hides-react :
            (i : Input) (s : Service × Bool)
            → AsksToHide i
            → Hides s.0
            → Hides (react codec day_of line_of compile fullmatch int py loads i s).0
        unfolding react
        Hides-react (message m frames now mono) (a, watching) asks h =
            ap (λ hide. hide k) (hide-on_ws_event m frames now mono a) ∙ h
        Hides-react (first_sync frames now) (a, watching) asks h =
            ap (λ hide. hide k) (hide-initial_sync frames now a) ∙ h
        Hides-react (wake now mono) (a, watching) asks h =
            ap (λ hide. hide k) (Keeps-periodic_flush now mono a.ingest).same_hide ∙ h
        Hides-react (changed env file) (a, true) asks h =
            Hides-on_load (load_config int py loads env file) a asks h
        Hides-react (changed env file) (a, false) asks h = h
