-- ===== src/Ingest/Pipeline.antt =====
-- The methods of `IngestPipeline` of src/ai_ha/ingest/pipeline.py. `hide` is the matcher's
-- `matches`, and `flush_task` is the background task of `_periodic_flush`.
pub mod Conservation
pub mod Counts
pub mod Faults
use ai_home_assistant.Prelude.{
  ℕ, ◌+◌, String, Option, none, some, Bool, true, false, not, ◌&&◌, List, [], ◌∷◌, ◌++◌,
  if◌then◌else◌, leb, length,
}
use ai_home_assistant.Store.Exec.{Error, Result, ok, raise, World}
use ai_home_assistant.Store.Dao.{increment_privacy_drop}
use ai_home_assistant.Topology.EntityIndex.{EntityRef, EntityIndex, lookup}
use ai_home_assistant.Ingest.Batch.{
  HaEvent, Buffered, now_bucket, collect, empty_batch, write_batch,
}

-- A task that raised keeps its error until somebody awaits it.
pub data Task : Type 0 where
  not_started running : Task
  failed : Error → Task

pub record Pipeline : Type 0 where
  pub index : EntityIndex
  pub hide : String → Bool
  pub batch_size : ℕ
  pub batch_interval : ℕ
  pub buffer : List Buffered
  pub first_added : Option ℕ
  pub stopped : Bool
  pub flush_task : Task

pub record State : Type 0 where
  pub pipeline : Pipeline
  pub open pipeline use *
  pub world : World

abbrev pub Outcome : Type 0
Outcome = Result (Unit {0}) × State

-- The buffer is cleared only when every write has returned.
abbrev cleared : Result (Unit {0}) → Pipeline → Pipeline
cleared (ok _) p = record p { buffer = []; first_added = none }
cleared (raise _) p = p

abbrev pub write_buffer : List Buffered → ℕ → State → Outcome
write_buffer [] now s = (ok tt, s)
write_buffer (b ∷ bs) now s =
    let (r, w) = write_batch (collect s.index now (b ∷ bs) empty_batch) s.world in
    (r, record { pipeline = cleared r s.pipeline; world = w })

-- `_commit_locked`, and `flush`.
unfoldable pub commit_locked : ℕ → State → Outcome
commit_locked now s = write_buffer s.buffer now s

unfoldable pub drop_hidden : ℕ → State → Outcome
unfolding now_bucket
drop_hidden now s =
    let (r, w) = increment_privacy_drop (now_bucket now) 1 s.world in (r, record s { world = w })

abbrev known : Option EntityRef → Bool
known none = false
known (some ref) = true

abbrev ref_snapshot : Option EntityRef → ℕ
ref_snapshot none = 0
ref_snapshot (some ref) = ref.snapshot_id

abbrev pub stamped : Option ℕ → ℕ → Option ℕ
stamped none mono = some mono
stamped (some t) mono = some t

-- The part of `submit` under the lock, up to the commit.
unfoldable pub enqueue : HaEvent → ℕ → State → State
enqueue event mono s = record s {
  pipeline = record s.pipeline {
    buffer = s.buffer ++ (event, ref_snapshot (lookup event.entity_id s.index)) ∷ [];
    first_added = stamped s.first_added mono;
  };
}

abbrev pub commit_if_full : ℕ → State → Outcome
commit_if_full now s =
    if leb s.batch_size (length s.buffer) then commit_locked now s else (ok tt, s)

unfoldable pub submit : HaEvent → ℕ → ℕ → State → Outcome
submit event now mono s =
    let ref = lookup event.entity_id s.index in
    if known ref && s.hide event.entity_id
    then drop_hidden now s
    else if not (known ref) && s.hide event.entity_id
    then drop_hidden now s
    else commit_if_full now (enqueue event mono s)

-- An error in the background task ends it; nobody sees the error yet.
abbrev pub task_outcome : Outcome → State
task_outcome (ok _, s) = s
task_outcome (raise x, s) = record s { pipeline = record s.pipeline { flush_task = failed x } }

abbrev flush_if_due : Option ℕ → ℕ → ℕ → State → State
flush_if_due none now mono s = s
flush_if_due (some first) now mono s =
    if leb (first + s.batch_interval) mono then task_outcome (commit_locked now s) else s

abbrev wake : Task → Bool → ℕ → ℕ → State → State
wake running false now mono s = flush_if_due s.first_added now mono s
wake _ _ now mono s = s

-- One round of `_periodic_flush`, 100 ms after the last: none if the task is not running or the
-- stop flag is set.
unfoldable pub periodic_flush : ℕ → ℕ → State → State
periodic_flush now mono s = wake s.flush_task s.stopped now mono s

unfoldable pub start : State → State
start s = record s { pipeline = record s.pipeline { flush_task = running } }

abbrev pub await_task : Task → ℕ → State → Outcome
await_task (failed x) now s = (raise x, s)
await_task _ now s = commit_locked now s

-- `stop`: awaiting a task that failed raises its error, before the last flush.
unfoldable pub stop : ℕ → State → Outcome
stop now s =
    let s' : State = record s { pipeline = record s.pipeline { stopped = true } } in
    await_task s.flush_task now s'
