-- ===== src/Service.antt =====
-- The handlers that src/ai_ha/main.py wires together: a state change of the home, and a new
-- configuration. The event has already been read from the message.
pub mod Hidden
pub mod Reload
pub mod Messages
pub mod Startup
pub mod Session
pub mod Main
use ai_home_assistant.Prelude.{ℕ, String, Option, Bool, List, nat_eq, string_eq}
use ai_home_assistant.Prelude.Dict.{Dict}
use ai_home_assistant.Store.Exec.{Result, ok, raise}
use ai_home_assistant.Privacy.{Built, built, refused, hide_matcher, matches}
use ai_home_assistant.Ingest.Batch.{HaEvent}
use ai_home_assistant.Ingest.Pipeline.{State, submit}
use ai_home_assistant.Health.{HealthMetrics, record_event, inc_config_reload_fail}
use ai_home_assistant.Archive.{JsonlWriter, append}
use ai_home_assistant.Web.Stream.{publish}

-- What is sent to the browsers: `ts`, `entity_id`, `event_type`.
abbrev pub Summary : Type 0
Summary = ℕ × String × String

abbrev pub summary_of : HaEvent → Summary
summary_of e = (e.ts_ms, e.entity_id, e.event_type)

pub record Service : Type 0 where
  pub ingest : State
  pub jsonl : JsonlWriter
  pub queues : Dict ℕ (List Summary)
  pub health : HealthMetrics
  pub hide_pattern : List String

-- `day_of` is the UTC day of a time, `line_of` the JSON text of the archived fields.
module _ (day_of : ℕ → String) (line_of : HaEvent → String) where
  abbrev pub archive_and_publish : HaEvent → Service → Service
  archive_and_publish event a = record a {
    jsonl = append (day_of event.ts_ms) (line_of event) a.jsonl;
    queues = publish 500 (summary_of event) a.queues;
    health = record_event event.ts_ms a.health;
  }

  abbrev pub after_submit :
      Result (Unit {0}) × State → HaEvent → Service → Result (Unit {0}) × Service
  after_submit (ok _, s) event a = (ok tt, archive_and_publish event (record a { ingest = s }))
  after_submit (raise x, s) event a = (raise x, record a { ingest = s })

  -- The `state_changed` branch of `on_ws_event`.
  unfoldable pub on_state_changed : HaEvent → ℕ → ℕ → Service → Result (Unit {0}) × Service
  on_state_changed event now mono a = after_submit (submit event now mono a.ingest) event a

module _ {Pattern : Type 0} (compile : String → Option Pattern)
    (fullmatch : Pattern → String → Bool) where
  abbrev reloaded : List String → Built (List Pattern) → Service → Service
  reloaded patterns (built cs) a = record a {
    ingest = record a.ingest {
      pipeline = record a.ingest.pipeline { hide = matches fullmatch cs };
    };
    hide_pattern = patterns;
  }
  reloaded patterns (refused x) a = record a { health = inc_config_reload_fail a.health }

  -- `on_cfg_change`, with the patterns of the new configuration.
  unfoldable pub on_cfg_change : List String → Service → Service
  on_cfg_change patterns a = reloaded patterns (hide_matcher compile patterns) a
