-- ===== src/Service/Hidden.antt =====
-- Where the state of a hidden entity goes in src/ai_ha/main.py.
use Prim.Native.String.{◌++◌}
use ai_home_assistant.Prelude.{
  ℕ, String, some, true, List, ◌≡◌, refl, ◌∙◌, inl, inr, Option-cases, string_eq, nat_eq, beq_refl,
}
use ai_home_assistant.Prelude.Dict.{get}
use ai_home_assistant.Store.Exec.{Result, ok, raise}
use ai_home_assistant.Topology.EntityIndex.{lookup}
use ai_home_assistant.Ingest.Batch.{HaEvent}
use ai_home_assistant.Ingest.Pipeline.{State, submit, drop_hidden}
use ai_home_assistant.Health.{record_event}
use ai_home_assistant.Archive.{path_for_day}
use ai_home_assistant.Archive.View.{contents}
use ai_home_assistant.Archive.Append.{IsPaired, contents-append}
use ai_home_assistant.Web.Stream.{offer}
use ai_home_assistant.Web.Stream.Latest.{get-publish}
use ai_home_assistant.Service.{
  archive_and_publish, after_submit, Summary, summary_of, Service, on_state_changed,
}

submit_hidden :
    (event : HaEvent) (now mono : ℕ) (s : State)
    → s.hide event.entity_id ≡ true
    → submit event now mono s ≡ drop_hidden now s
unfolding submit
submit_hidden event now mono s h = elim (Option-cases (lookup event.entity_id s.index)) [
  | inl e ↦ rw (e, h) refl
  | inr (ref, e) ↦ rw (e, h) refl
]

drop_hidden-buffer : (now : ℕ) (s : State) → (drop_hidden now s).1.buffer ≡ s.buffer
unfolding drop_hidden
drop_hidden-buffer now s = refl

module _ (day_of : ℕ → String) (line_of : HaEvent → String) where
  pub after_submit-ok :
      (o : Result (Unit {0}) × State) (event : HaEvent) (a : Service)
      → o.0 ≡ ok tt
      → after_submit day_of line_of o event a
        ≡ (ok tt, archive_and_publish day_of line_of event (record a { ingest = o.1 }))
  after_submit-ok (ok _, s) event a h = refl
  after_submit-ok (raise x, s) event a h = cc

  -- When the matcher hides the entity of an event and the drop is counted in the table, the buffer
  -- and the health report's count of hidden events stay as they are; but the event's line is added to
  -- the archive's file of its day, and its summary is offered to each browser's queue.
  pub on_state_changed_hidden :
      (event : HaEvent) (now mono : ℕ) (a : Service) (client : ℕ) (q : List Summary)
      → a.ingest.hide event.entity_id ≡ true
      → (drop_hidden now a.ingest).0 ≡ ok tt
      → IsPaired a.jsonl
      → get client a.queues ≡ some q
      → let file = path_for_day a.jsonl.compress (day_of event.ts_ms) in
        let a' = (on_state_changed day_of line_of event now mono a).1 in
        (a'.ingest.buffer ≡ a.ingest.buffer)
        × (a'.health.hidden_total ≡ a.health.hidden_total)
        × (contents file a'.jsonl ≡ contents file a.jsonl ++ line_of event ++ "\n")
        × (get client a'.queues ≡ some (offer 500 (summary_of event) q))
  unfolding on_state_changed record_event
  on_state_changed_hidden event now mono a client q h fine paired sub =
      let o = drop_hidden now a.ingest in
      let file = path_for_day a.jsonl.compress (day_of event.ts_ms) in
      let added = contents-append file (day_of event.ts_ms) (line_of event) a.jsonl paired in
      rw (submit_hidden event now mono a.ingest h, after_submit-ok o event a fine)
        (
          drop_hidden-buffer now a.ingest,
          refl,
          added ∙ rw (beq_refl file) refl,
          get-publish 500 (summary_of event) a.queues client q sub,
        )
