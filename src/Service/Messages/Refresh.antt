-- ===== src/Service/Messages/Refresh.antt =====
-- What a refresh of the registries in src/ai_ha/main.py leaves alone.
use ai_home_assistant.Prelude.{
  ℕ, ◌+◌, String, Option, none, some, Bool, true, false, List, ◌++◌, ◌≡◌, refl, ◌∙◌, ap, sym, arith,
  inl, inr, Bool-cases, string_eq, ◌==◌, eq_of_beq,
}
use ai_home_assistant.Prelude.Texts.{ends_with}
use ai_home_assistant.Store.Rows.{EventRow}
use ai_home_assistant.Store.Exec.{Db, Result, ok, raise, World}
use ai_home_assistant.Topology.Payload.{TopologyPayload}
use ai_home_assistant.Topology.EntityIndex.{EntityIndex}
use ai_home_assistant.Topology.Snapshots.{Codec, insert_if_changed, store_hash, add_snapshot}
use ai_home_assistant.Topology.Orchestrator.{upsert_if_new, apply}
use ai_home_assistant.Topology.Orchestrator.Untouched.{
  Keeps, IsBlind, Keeps->>=, Keeps-transaction, Keeps-upsert_if_new,
}
use ai_home_assistant.Ingest.Batch.{HaEvent}
use ai_home_assistant.Ingest.Batch.Writes.{history}
use ai_home_assistant.Ingest.Pipeline.Conservation.{taken_in, events_in}
use ai_home_assistant.Adapter.Registry.{
  Frame, Fetch, fetched, connection_closed, auth_failed, request_failed, fetch_once,
}
use ai_home_assistant.Service.{Service}
use ai_home_assistant.Service.Messages.{WsEvent, after_apply, after_fetch, refetch, on_ws_event}

abbrev events_of : Db → List (ℕ × EventRow)
events_of db = db.events

events_of-IsBlind : IsBlind events_of
events_of-IsBlind = record { areas = λ db t. refl; devices = λ db t. refl; entities = λ db t. refl }

Keeps-store_hash :
    (o : Option ℕ) (ts_ms : ℕ) (h body : String) (diff : Option String)
    → Keeps events_of (store_hash o ts_ms h body diff)
unfolding store_hash add_snapshot
Keeps-store_hash (some sid) ts_ms h body diff w = refl
Keeps-store_hash none ts_ms h body diff w = Keeps-transaction events_of stored same w
  where
    stored : Db → Result ((ℕ × Bool) × Db)
    stored db = ok ((db.snapshot_seq + 1, true), add_snapshot ts_ms h body diff db)

    same : (db : Db) (a : ℕ × Bool) (db' : Db) → stored db ≡ ok (a, db') → db'.events ≡ db.events
    same db a db' e = ground arith

Keeps-insert_if_changed :
    (codec : Codec) (p : TopologyPayload) (ts : ℕ) (diff : Option String)
    → Keeps events_of (insert_if_changed codec p ts diff)
unfolding insert_if_changed
Keeps-insert_if_changed codec p ts diff w = Keeps-store_hash _ ts _ _ diff w

events-apply :
    (codec : Codec) (p : TopologyPayload) (ts : ℕ) (idx : EntityIndex) (w : World)
    → (apply codec p ts idx w).1.db.events ≡ w.db.events
unfolding apply
events-apply codec p ts idx w =
    Keeps->>= events_of (insert_if_changed codec p ts none) (upsert_if_new p ts)
      (Keeps-insert_if_changed codec p ts none)
      (Keeps-upsert_if_new events_of events_of-IsBlind p ts) w

-- What a refresh leaves alone, whatever its outcome.
pub record Spared (a b : Service) : Type 0 where
  pub events : taken_in b.ingest ≡ taken_in a.ingest
  pub hide : b.ingest.pipeline.hide ≡ a.ingest.pipeline.hide
  pub archive : b.jsonl ≡ a.jsonl
  pub queues : b.queues ≡ a.queues

module _ (codec : Codec) (ts : ℕ) where
  pub Spared-after_fetch :
      (r : Fetch TopologyPayload) (a : Service) → Spared a (after_fetch codec r ts a).1
  Spared-after_fetch (fetched p) a =
      applied (apply codec p ts a.ingest.pipeline.index a.ingest.world)
        (events-apply codec p ts a.ingest.pipeline.index a.ingest.world)
    where
      applied :
          (o : Result (ℕ × Bool) × World × EntityIndex)
          → o.1.db.events ≡ a.ingest.world.db.events
          → Spared a (after_apply codec o a).1
      applied (ok (sid, new), w, index) e = record {
        events = ap (λ es. history es ++ events_in a.ingest.buffer) e;
        hide = refl;
        archive = refl;
        queues = refl;
      }
      applied (raise x, w, index) e = record {
        events = ap (λ es. history es ++ events_in a.ingest.buffer) e;
        hide = refl;
        archive = refl;
        queues = refl;
      }
  Spared-after_fetch connection_closed a = record {
    events = refl;
    hide = refl;
    archive = refl;
    queues = refl;
  }
  Spared-after_fetch auth_failed a = record {
    events = refl;
    hide = refl;
    archive = refl;
    queues = refl;
  }
  Spared-after_fetch request_failed a = record {
    events = refl;
    hide = refl;
    archive = refl;
    queues = refl;
  }

-- Whatever the server answers to the refetch that a registry update asks for, and whatever part of
-- its storing fails, the message is handled without an error: no event stored or buffered is lost,
-- and the privacy rules, the archive and the queues of the clients stay as they are.
pub on_ws_event-Spared :
    (codec : Codec) (day_of : ℕ → String) (line_of : HaEvent → String) (ev : WsEvent)
    (kind : String) (frames : List Frame) (now mono : ℕ) (a : Service)
    → ev.event_type ≡ some kind
    → ends_with "_registry_updated" kind ≡ true
    → let (r, a') = on_ws_event codec day_of line_of (some ev) frames now mono a in
      (r ≡ ok tt) × Spared a a'
unfolding on_ws_event refetch
on_ws_event-Spared codec day_of line_of ev kind frames now mono a e suffix =
    elim (Bool-cases (kind == "state_changed")) [
      | inl same ↦
          let path : "state_changed" ≡ kind = sym (eq_of_beq kind "state_changed" same) in
          let no : false ≡ true = ap (ends_with "_registry_updated") path ∙ suffix in cc
      | inr other ↦ rw (e, other, suffix) (refl, Spared-after_fetch codec now (fetch_once frames) a)
    ]
