-- ===== src/Service/Session/Stored.antt =====
-- What the shutdown of src/ai_ha/main.py leaves in the tables, where no write has failed.
use ai_home_assistant.Prelude.{
  ℕ, String, Option, Bool, true, false, List, [], ◌∷◌, ◌++◌, ◌≡◌, refl, ◌∙◌, ap, append_assoc,
}
use ai_home_assistant.Prelude.Int.{ℤ}
use ai_home_assistant.Store.Exec.{ok, raise}
use ai_home_assistant.Topology.Snapshots.{Codec}
use ai_home_assistant.Ingest.Batch.{HaEvent}
use ai_home_assistant.Ingest.Batch.Writes.{history}
use ai_home_assistant.Ingest.Pipeline.{State, Outcome, commit_locked}
use ai_home_assistant.Ingest.Pipeline.Conservation.{taken_in, commit_locked-Stores}
use ai_home_assistant.Ingest.Run.Delivery.{
  IsSound, Takes-periodic_flush, commit_locked-Sound, stop-commit,
}
use ai_home_assistant.Config.Toml.{Fields}
use ai_home_assistant.Config.Schema.{Pydantic}
use ai_home_assistant.Config.Loader.{load_config}
use ai_home_assistant.Service.{Service}
use ai_home_assistant.Service.Session.{
  Input, message, first_sync, wake, changed, after_stop, shut_down, react, session,
}
use ai_home_assistant.Service.Session.Kept.{gained, gains}
use ai_home_assistant.Service.Session.Sound.{
  Adds, Adds-same, Adds-on_ws_event, Adds-initial_sync, Adds-on_load,
}

-- The shutdown returns; the table holds `all`, and nothing waits.
abbrev pub Stored : List HaEvent → ℕ → Service → Type 0
Stored all now a =
    let t = shut_down now a in
    (t.0 ≡ ok tt) × (history t.1.ingest.world.db.events ≡ all) × (t.1.ingest.buffer ≡ [])

Stored-shut_down : (now : ℕ) (a : Service) → IsSound a.ingest → Stored (taken_in a.ingest) now a
unfolding shut_down
Stored-shut_down now a h =
    let s' : State = record a.ingest { pipeline = record a.ingest.pipeline { stopped = true } } in
    let (flushed, _) = commit_locked-Sound now s' h in
    let c = commit_locked-Stores now s' flushed in
    rw (stop-commit now a.ingest h) (ends (commit_locked now s') flushed c.stored c.emptied)
  where
    ends :
        (o : Outcome)
        → o.0 ≡ ok tt
        → history o.1.world.db.events ≡ taken_in a.ingest
        → o.1.buffer ≡ []
        → let t = after_stop o a in
          (t.0 ≡ ok tt)
          × (history t.1.ingest.world.db.events ≡ taken_in a.ingest)
          × (t.1.ingest.buffer ≡ [])
    ends (ok _, s) r e b = (refl, e, b)
    ends (raise x, s) r e b = cc

module _ (codec : Codec) (day_of : ℕ → String) (line_of : HaEvent → String) {Pattern : Type 0}
    (compile : String → Option Pattern) (fullmatch : Pattern → String → Bool) {Float : Type 0}
    (int : String → Option ℤ) (py : Pydantic Float) (loads : String → Option Fields) where
  Adds-react :
      (i : Input) (s : Service × Bool)
      → IsSound s.0.ingest
      → Adds (gained i s.0) s.0 (react codec day_of line_of compile fullmatch int py loads i s).0
  unfolding react
  Adds-react (message m frames now mono) (a, watching) h =
      Adds-on_ws_event codec day_of line_of m frames now mono a h
  Adds-react (first_sync frames now) (a, watching) h = Adds-initial_sync codec frames now a h
  Adds-react (wake now mono) (a, watching) h =
      let (taken, kept) = Takes-periodic_flush now mono a.ingest h in
      record { sound = kept; events = taken.events }
  Adds-react (changed env file) (a, true) h =
      Adds-on_load compile fullmatch (load_config int py loads env file) a h
  Adds-react (changed env file) (a, false) h = Adds-same a a h refl

  session-Adds :
      (is : List Input) (s : Service × Bool)
      → IsSound s.0.ingest
      → Adds
          (gains codec day_of line_of compile fullmatch int py loads is s)
          s.0
          (session codec day_of line_of compile fullmatch int py loads is s).0
  unfolding session gains
  session-Adds [] s h = Adds-same s.0 s.0 h refl
  session-Adds (i ∷ is) s h =
      let t = react codec day_of line_of compile fullmatch int py loads i s in
      let first = Adds-react i s h in
      let rest = session-Adds is t first.sound in
      let later = gains codec day_of line_of compile fullmatch int py loads is t in
      record {
        sound = rest.sound;
        events =
            rest.events
            ∙ ap (λ es. es ++ later) first.events
            ∙ append_assoc (taken_in s.0.ingest) (gained i s.0) later;
      }

  -- From a service where no write is to fail, any session and the shutdown after it: what was stored
  -- or waiting, and then each event that was not hidden, are stored exactly once and in order.
  pub session-Stored :
      (is : List Input) (s : Service × Bool) (now : ℕ)
      → IsSound s.0.ingest
      → Stored
          (taken_in s.0.ingest ++ gains codec day_of line_of compile fullmatch int py loads is s)
          now
          (session codec day_of line_of compile fullmatch int py loads is s).0
  session-Stored is s now h =
      let end = (session codec day_of line_of compile fullmatch int py loads is s).0 in
      let added = session-Adds is s h in rw (← added.events) (Stored-shut_down now end added.sound)
