-- ===== src/Service/Session/Private.antt =====
-- The privacy that the patterns of src/ai_ha/privacy/hide_matcher.py give, over the whole life of the
-- service of src/ai_ha/main.py.
use ai_home_assistant.Prelude.{
  ℕ, String, Option, some, Bool, true, false, not, List, [], ◌∷◌, ◌≡◌, refl, ◌∙◌, sym, ap, inl, inr,
  ◌==◌, string_eq, Bool-cases, All, All-append, All-append_left, All-append_right, All-keep,
  All-map, All-take, eq_of_beq,
}
use ai_home_assistant.Prelude.Int.{ℤ}
use ai_home_assistant.Store.Rows.{EventRow}
use ai_home_assistant.Store.Exec.{Db}
use ai_home_assistant.Store.Dao.{EventQuery, row_matches, select_events, list_events}
use ai_home_assistant.Store.Migrations.{Migration, Schema}
use ai_home_assistant.Topology.Snapshots.{Codec}
use ai_home_assistant.Privacy.Matching.{any_pattern}
use ai_home_assistant.Ingest.Batch.{HaEvent}
use ai_home_assistant.Ingest.Batch.Writes.{history, event_of}
use ai_home_assistant.Ingest.Pipeline.Conservation.{taken_in, events_in, admitted}
use ai_home_assistant.Config.Toml.{Fields}
use ai_home_assistant.Config.Schema.{Pydantic}
use ai_home_assistant.Config.Loader.{FileText, Environ}
use ai_home_assistant.Service.{Service}
use ai_home_assistant.Service.Messages.{or_text, event_in}
use ai_home_assistant.Service.Startup.{starts, open_database, start_up}
use ai_home_assistant.Service.Startup.Ready.{start_up-IsConsistent, taken_in-start_up}
use ai_home_assistant.Service.Session.{Input, message, first_sync, wake, changed, react, session}
use ai_home_assistant.Service.Session.Hiding.{Hides, AsksToHide, Hides-react}
use ai_home_assistant.Service.Session.Kept.{gained, gains, session-Covers}

module _ (k : String) where
  abbrev Other : HaEvent → Type 0
  Other e = not (e.entity_id == k) ≡ true

  admitted-Other :
      (hide : String → Bool) (e : HaEvent) → hide k ≡ true → All Other (admitted hide e)
  admitted-Other hide e h = elim (Bool-cases (hide e.entity_id)) [
    | inl hidden ↦ rw hidden tt
    | inr shown ↦ elim (Bool-cases (e.entity_id == k)) [
      | inl same ↦ absurd (
          let path = eq_of_beq e.entity_id k same in
          let no : hide k ≡ false = sym (ap hide path) ∙ shown in cc)
      | inr other ↦ rw shown (rw other refl, tt)
    ]
  ]

  gained-Other : (i : Input) (a : Service) → Hides k a → All Other (gained i a)
  gained-Other (message m frames now mono) a h =
      elim (Bool-cases (or_text "" (event_in m).event_type == "state_changed")) [
        | inl state ↦ rw state (admitted-Other a.ingest.pipeline.hide _ h)
        | inr other ↦ rw other tt
      ]
  gained-Other (first_sync frames now) a h = tt
  gained-Other (wake now mono) a h = tt
  gained-Other (changed env file) a h = tt

  -- The rows of a table whose events are all of other entities.
  rows-Other :
      (es : List (ℕ × EventRow))
      → All Other (history es)
      → All (λ e. not (e.1.entity_id == k) ≡ true) es
  unfolding history event_of
  rows-Other [] h = tt
  rows-Other (e ∷ es) h = (
    (All-append_right Other (history es) (event_of e.1 ∷ []) h).0,
    rows-Other es (All-append_left Other (history es) (event_of e.1 ∷ []) h),
  )

  list_events-Other :
      (q : EventQuery) (limit : ℕ) (db : Db)
      → All Other (history db.events)
      → All (λ (r : EventRow). not (r.entity_id == k) ≡ true) (list_events q limit db)
  unfolding list_events select_events
  list_events-Other q limit db h =
      All-map _ _ _
        (All-take _ limit _ (All-keep _ (row_matches q) db.events (rows-Other db.events h)))

  module _ (codec : Codec) (day_of : ℕ → String) (line_of : HaEvent → String) {Pattern : Type 0}
      (compile : String → Option Pattern) (fullmatch : Pattern → String → Bool) {Float : Type 0}
      (int : String → Option ℤ) (py : Pydantic Float) (loads : String → Option Fields) where
    gains-Other :
        (is : List Input) (s : Service × Bool)
        → All (AsksToHide k codec day_of line_of compile fullmatch int py loads) is
        → Hides k s.0
        → All Other (gains codec day_of line_of compile fullmatch int py loads is s)
    unfolding gains
    gains-Other [] s asks h = tt
    gains-Other (i ∷ is) s (now, later) h =
        All-append Other (gained i s.0) _ (gained-Other i s.0 h) (
          gains-Other is (react codec day_of line_of compile fullmatch int py loads i s) later
            (Hides-react k codec day_of line_of compile fullmatch int py loads i s now h))

    -- An entity that the patterns of the configuration match, at the start and in each file that
    -- is loaded later, and of which the opened database holds no event: whatever the server
    -- sends and whatever writes fail, no list of events that the service gives out at any later
    -- time has one of it.
    pub session-private :
        (integrity : String) (migrations : List (Migration Db)) (env : Environ) (file : FileText)
        (d : Schema Db) (db : Db) (faults : List Bool) (now : ℕ) (a : Service) (is : List Input)
        (q : EventQuery) (limit : ℕ)
        → open_database integrity migrations d ≡ some db
        → start_up compile fullmatch int py loads integrity migrations env file d faults now
          ≡ starts a
        → any_pattern compile fullmatch k a.hide_pattern ≡ true
        → All Other (history db.events)
        → All (AsksToHide k codec day_of line_of compile fullmatch int py loads) is
        → let end = session codec day_of line_of compile fullmatch int py loads is (a, true) in
          All
            (λ (r : EventRow). not (r.entity_id == k) ≡ true)
            (list_events q limit end.0.ingest.world.db)
    session-private integrity migrations env file d db faults now a is q limit opens begun matched
          clean asks =
        let end = session codec day_of line_of compile fullmatch int py loads is (a, true) in
        let hides : Hides k a =
          start_up-IsConsistent compile fullmatch int py loads integrity migrations env file d
            faults now a begun k
          ∙ matched in
        let taken =
          taken_in-start_up compile fullmatch int py loads integrity migrations env file d db faults
            now a opens begun in
        let covers =
          session-Covers codec day_of line_of compile fullmatch int py loads is (a, true) in
        let all_other : All Other (taken_in end.0.ingest) =
          covers.only (λ e. not (e.entity_id == k))
            (All-append Other (taken_in a.ingest) _ (rw taken clean)
              (gains-Other is (a, true) asks hides)) in
        list_events-Other q limit end.0.ingest.world.db (
          All-append_left Other (history end.0.ingest.world.db.events)
            (events_in end.0.ingest.buffer) all_other)
