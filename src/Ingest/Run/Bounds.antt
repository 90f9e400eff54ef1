-- ===== src/Ingest/Run/Bounds.antt =====
-- How many events the pipeline of src/ai_ha/ingest/pipeline.py holds back.
use ai_home_assistant.Prelude.{ℕ, ◌<◌, List, [], ◌∷◌, arith, inl, inr, leb, length, Bool-cases}
use ai_home_assistant.Ingest.Batch.{HaEvent}
use ai_home_assistant.Ingest.Pipeline.{
  State, commit_locked, drop_hidden, enqueue, submit, periodic_flush,
}
use ai_home_assistant.Ingest.Pipeline.Conservation.{submit_lem, commit_locked-Stores}
use ai_home_assistant.Ingest.Run.{Call, submit_call, tick, flush, reload, rebuild, run}
use ai_home_assistant.Ingest.Run.Delivery.{
  IsSound, commit_locked-Sound, submit-Sound, periodic_flush_cases, Takes-periodic_flush,
}

abbrev pub HasRoom : State → Type 0
HasRoom s = length s.buffer < s.batch_size

HasRoom-commit :
    (now : ℕ) (s : State) → 0 < s.batch_size → IsSound s → HasRoom (commit_locked now s).1
HasRoom-commit now s pos h =
    let c = commit_locked-Stores now s (commit_locked-Sound now s h).0 in
    rw (c.emptied, c.same_size) pos

HasRoom-submit :
    (event : HaEvent) (now mono : ℕ) (s : State)
    → IsSound s
    → HasRoom s
    → HasRoom (submit event now mono s).1
HasRoom-submit event now mono s h room = elim (Bool-cases (s.hide event.entity_id)) [
  | inl hidden ↦ rw (submit_lem event now mono s, hidden) (unfold drop_hidden in room)
  | inr shown ↦
      let t = enqueue event mono s in
      rw (submit_lem event now mono s, shown)
        (elim (Bool-cases (leb t.batch_size (length t.buffer))) [
          | inl full ↦
              rw full (HasRoom-commit now t (unfold enqueue in omega arith) (unfold enqueue in h))
          | inr more ↦ rw more (ground arith)
        ])
]

HasRoom-periodic_flush :
    (now mono : ℕ) (s : State) → IsSound s → HasRoom s → HasRoom (periodic_flush now mono s)
HasRoom-periodic_flush now mono s h room = elim (periodic_flush_cases now mono s h) [
  | inl e ↦ rw e room
  | inr e ↦ rw e (HasRoom-commit now s (omega arith) h)
]

-- Where no write fails, the buffer holds fewer events than a batch between two calls: any run keeps
-- it so.
pub run-HasRoom : (cs : List Call) (s : State) → IsSound s → HasRoom s → HasRoom (run cs s).1
unfolding run
run-HasRoom [] s h room = room
run-HasRoom (submit_call event now mono ∷ cs) s h room =
    let (returned, kept) = submit-Sound event now mono s h in
    rw returned
      (run-HasRoom cs (submit event now mono s).1 kept (HasRoom-submit event now mono s h room))
run-HasRoom (tick now mono ∷ cs) s h room =
    let (_, kept) = Takes-periodic_flush now mono s h in
    run-HasRoom cs (periodic_flush now mono s) kept (HasRoom-periodic_flush now mono s h room)
run-HasRoom (flush now ∷ cs) s h room =
    let (returned, kept) = commit_locked-Sound now s h in
    rw returned (run-HasRoom cs (commit_locked now s).1 kept (HasRoom-commit now s (omega arith) h))
run-HasRoom (reload hide ∷ cs) s h room =
    run-HasRoom cs (record s { pipeline = record s.pipeline { hide = hide } }) h room
run-HasRoom (rebuild index ∷ cs) s h room =
    run-HasRoom cs (record s { pipeline = record s.pipeline { index = index } }) h room
