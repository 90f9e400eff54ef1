-- ===== src/Service/Session.antt =====
-- The life of the service of src/ai_ha/main.py: the messages of the socket, the first refresh, the
-- wakings of the pipeline's background task and the changes of the configuration, in the order in
-- which they come, and then the shutdown. A handler is one step, so that one in flight at the shutdown
-- is not modelled; the socket's client logs its error and goes on.
pub mod Kept
pub mod Hiding
pub mod Private
pub mod Archived
pub mod Sound
pub mod Stored
use ai_home_assistant.Prelude.{ℕ, String, Option, Bool, true, false, List, [], ◌∷◌}
use ai_home_assistant.Prelude.Int.{ℤ}
use ai_home_assistant.Store.Exec.{Result, ok, raise}
use ai_home_assistant.Topology.Snapshots.{Codec}
use ai_home_assistant.Ingest.Batch.{HaEvent}
use ai_home_assistant.Ingest.Pipeline.{Outcome, periodic_flush, stop}
use ai_home_assistant.Archive.{close}
use ai_home_assistant.Config.Toml.{Fields}
use ai_home_assistant.Config.Schema.{Pydantic}
use ai_home_assistant.Config.Loader.{FileText, Environ, load_config}
use ai_home_assistant.Config.Watcher.{on_load}
use ai_home_assistant.Adapter.Registry.{Frame}
use ai_home_assistant.Service.{Service}
use ai_home_assistant.Service.Messages.{WsEvent, on_ws_event, initial_sync}

-- The frames are what the server would answer to a refetch; the numbers are the two clocks.
pub data Input : Type 0 where
  message : Option WsEvent → List Frame → ℕ → ℕ → Input
  first_sync : List Frame → ℕ → Input
  wake : ℕ → ℕ → Input
  changed : Environ → FileText → Input

-- The shutdown, after the web server has ended: the archive is closed if the pipeline has stopped.
abbrev pub after_stop : Outcome → Service → Result (Unit {0}) × Service
after_stop (ok _, s) a = (ok tt, record a { ingest = s; jsonl = close a.jsonl })
after_stop (raise x, s) a = (raise x, record a { ingest = s })

unfoldable pub shut_down : ℕ → Service → Result (Unit {0}) × Service
shut_down now a = after_stop (stop now a.ingest) a

module _ (codec : Codec) (day_of : ℕ → String) (line_of : HaEvent → String) {Pattern : Type 0}
    (compile : String → Option Pattern) (fullmatch : Pattern → String → Bool) {Float : Type 0}
    (int : String → Option ℤ) (py : Pydantic Float) (loads : String → Option Fields) where
  -- The service, and whether the watcher still runs.
  unfoldable pub react : Input → Service × Bool → Service × Bool
  react (message m frames now mono) (a, watching) =
      ((on_ws_event codec day_of line_of m frames now mono a).1, watching)
  react (first_sync frames now) (a, watching) = (initial_sync codec frames now a, watching)
  react (wake now mono) (a, watching) =
      (record a { ingest = periodic_flush now mono a.ingest }, watching)
  react (changed env file) (a, true) =
      on_load compile fullmatch (load_config int py loads env file) a
  react (changed env file) (a, false) = (a, false)

  unfoldable pub session : List Input → Service × Bool → Service × Bool
  unfolding react
  session [] s = s
  session (i ∷ is) s = session is (react i s)
