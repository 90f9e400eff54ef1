-- ===== src/Web/App/Exposed.antt =====
-- What the websocket of src/ai_ha/web/routes/stream.py gives to a caller without credentials.
use ai_home_assistant.Prelude.{
  ℕ, String, Option, some, true, List, [], ◌∷◌, ◌≡◌, refl, ◌∙◌, nat_eq, beq_refl,
}
use ai_home_assistant.Prelude.Dict.{get, get-alter}
use ai_home_assistant.Prelude.Int.{ℤ}
use ai_home_assistant.Store.Exec.{ok}
use ai_home_assistant.Topology.Snapshots.{Codec}
use ai_home_assistant.Ingest.Batch.{HaEvent}
use ai_home_assistant.Ingest.Pipeline.{submit}
use ai_home_assistant.Config.Toml.{Fields}
use ai_home_assistant.Web.Auth.{HttpBasicCredentials}
use ai_home_assistant.Web.Stream.{subscribe, offer, full}
use ai_home_assistant.Web.Stream.Latest.{get-publish}
use ai_home_assistant.Service.{Summary, summary_of, on_state_changed}
use ai_home_assistant.Service.Hidden.{after_submit-ok}
use ai_home_assistant.Web.App.{Site, open_stream, handle, route}

get-subscribe :
    (client : ℕ) (queues : List (ℕ × List Summary)) → get client (subscribe client queues) ≡ some []
unfolding subscribe
get-subscribe client queues = get-alter client client (λ _. []) queues ∙ rw (beq_refl client) refl

module _ (codec : Codec) {Size : Type 0} (megabytes : ℕ → Size) (strip : String → String)
    (int : String → Option ℤ) (str : ℕ → String) {Pattern : Type 0}
    (compile : String → Option Pattern) (loads : String → Option Fields)
    (dumps : Fields → String) where
  -- Where authentication is required: a caller with any credentials, or none, who opens the stream
  -- finds the time, the entity id and the type of the next state change that the pipeline takes
  -- without an error in the queue, whether the matcher hides the entity or not.
  pub open_stream_exposes :
      (creds : Option HttpBasicCredentials) (t client : ℕ) (s : Site) (day_of : ℕ → String)
      (line_of : HaEvent → String) (event : HaEvent) (now mono : ℕ)
      → (submit event now mono s.service.ingest).0 ≡ ok tt
      → let s' =
          (handle codec megabytes strip int str compile loads dumps true creds t
            (open_stream client)
            s).1 in
        get client (on_state_changed day_of line_of event now mono s'.service).1.queues
        ≡ some (summary_of event ∷ [])
  unfolding handle route on_state_changed offer full
  open_stream_exposes creds t client s day_of line_of event now mono fine =
      let queues = subscribe client s.service.queues in
      let a = record s.service { queues = queues } in
      rw (after_submit-ok day_of line_of (submit event now mono a.ingest) event a fine) (
        get-publish 500 (summary_of event) queues client [] (get-subscribe client s.service.queues))
