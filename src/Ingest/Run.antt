-- ===== src/Ingest/Run.antt =====
-- Runs of the pipeline of src/ai_ha/ingest/pipeline.py: submissions, rounds of the background task,
-- flushes, and the swaps of the matcher (src/ai_ha/main.py) and of the index, in any order.
pub mod Delivery
pub mod Loss
pub mod Inbox
pub mod Bounds
pub mod Progress
use ai_home_assistant.Prelude.{ℕ, String, Bool, List, [], ◌∷◌}
use ai_home_assistant.Store.Exec.{Error, Result, ok, raise}
use ai_home_assistant.Topology.EntityIndex.{EntityIndex}
use ai_home_assistant.Ingest.Batch.{HaEvent}
use ai_home_assistant.Ingest.Pipeline.{State, Outcome, commit_locked, submit, periodic_flush, stop}

pub data Call : Type 0 where
  submit_call : HaEvent → ℕ → ℕ → Call
  tick : ℕ → ℕ → Call
  flush : ℕ → Call
  reload : (String → Bool) → Call
  rebuild : EntityIndex → Call

unfoldable pub step : Call → State → Outcome
step (submit_call event now mono) s = submit event now mono s
step (tick now mono) s = (ok tt, periodic_flush now mono s)
step (flush now) s = commit_locked now s
step (reload hide) s = (ok tt, record s { pipeline = record s.pipeline { hide = hide } })
step (rebuild index) s = (ok tt, record s { pipeline = record s.pipeline { index = index } })

abbrev pub next : (State → Outcome) → Outcome → Outcome
next k (ok _, s) = k s
next k (raise x, s) = (raise x, s)

-- The calls in turn, up to the first that raises.
unfoldable pub run : List Call → State → Outcome
unfolding step
run [] s = (ok tt, s)
run (c ∷ cs) s = next (run cs) (step c s)

-- A run, and then the shutdown.
unfoldable pub run_and_stop : List Call → ℕ → State → Outcome
run_and_stop cs now s = next (stop now) (run cs s)

-- The calls in turn, each made whether or not the one before raised: the caller of `on_event` in
-- src/ai_ha/ha_adapter/ws_client.py logs an error and goes on.
unfoldable pub run_through : List Call → State → State
unfolding step
run_through [] s = s
run_through (c ∷ cs) s = run_through cs (step c s).1
