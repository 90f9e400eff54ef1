-- ===== src/Ingest/Run/Delivery.antt =====
-- Where no write fails, every event that the matcher admits reaches the table, once and in order.
use ai_home_assistant.Prelude.{
  ℕ, String, Bool, true, ◌⊎◌, List, [], ◌∷◌, ◌++◌, ◌≡◌, refl, ◌∙◌, ap, sym, arith, inl, inr, leb,
  length, Bool-cases, append_assoc, append-nil,
}
use ai_home_assistant.Store.Exec.{ok}
use ai_home_assistant.Store.Sound.{increment_privacy_drop-Succeeds}
use ai_home_assistant.Ingest.Batch.{HaEvent, Buffered, collect, empty_batch}
use ai_home_assistant.Ingest.Batch.Total.{write_batch-Succeeds}
use ai_home_assistant.Ingest.Batch.Writes.{history}
use ai_home_assistant.Ingest.Pipeline.{
  State, Outcome, running, not_started, write_buffer, commit_if_full, commit_locked, drop_hidden,
  enqueue, submit, periodic_flush, stop,
}
use ai_home_assistant.Ingest.Pipeline.Conservation.{
  taken_in, admitted, Takes, Takes-commit, submit-Takes, submit_lem, commit_locked-Stores,
}
use ai_home_assistant.Ingest.Run.{
  next, Call, submit_call, tick, flush, reload, rebuild, run, run_and_stop,
}

-- No write fails, and none has failed in the background task.
abbrev pub IsSound : State → Type 0
IsSound s = (s.world.faults ≡ []) × ((s.flush_task ≡ not_started) ⊎ (s.flush_task ≡ running))

abbrev pub Sound : Outcome → Type 0
Sound o = (o.0 ≡ ok tt) × IsSound o.1

write_buffer-Sound :
    (bs : List Buffered) (now : ℕ) (s : State) → IsSound s → Sound (write_buffer bs now s)
write_buffer-Sound [] now s h = (refl, h)
write_buffer-Sound (b ∷ bs) now s h =
    let (returned, rest) =
      write_batch-Succeeds (collect s.index now (b ∷ bs) empty_batch) s.world h.0 in
    (returned, (rest, rw returned h.1))

pub commit_locked-Sound : (now : ℕ) (s : State) → IsSound s → Sound (commit_locked now s)
unfolding commit_locked
commit_locked-Sound now s h = write_buffer-Sound s.buffer now s h

pub commit_if_full-Sound : (now : ℕ) (s : State) → IsSound s → Sound (commit_if_full now s)
commit_if_full-Sound now s h = elim (Bool-cases (leb s.batch_size (length s.buffer))) [
  | inl full ↦ rw full (commit_locked-Sound now s h)
  | inr room ↦ rw room (refl, h)
]

pub drop_hidden-Sound : (now : ℕ) (s : State) → IsSound s → Sound (drop_hidden now s)
unfolding drop_hidden
drop_hidden-Sound now s h =
    let (returned, rest) = increment_privacy_drop-Succeeds _ 1 "" s.world h.0 in
    (returned, (rest, h.1))

pub submit-Sound :
    (e : HaEvent) (now mono : ℕ) (s : State) → IsSound s → Sound (submit e now mono s)
submit-Sound e now mono s h = rw submit_lem (elim (Bool-cases (s.hide e.entity_id)) [
  | inl hidden ↦ rw hidden (drop_hidden-Sound now s h)
  | inr shown ↦ rw shown (commit_if_full-Sound now (enqueue e mono s) (unfold enqueue in h))
])

-- A round of the background task changes nothing but by a commit.
pub periodic_flush_cases :
    (now mono : ℕ) (s : State)
    → IsSound s
    → (periodic_flush now mono s ≡ s) ⊎ (periodic_flush now mono s ≡ (commit_locked now s).1)
unfolding periodic_flush
periodic_flush_cases now mono s h = let (returned, _) = commit_locked-Sound now s h in ground arith

pub Takes-periodic_flush :
    (now mono : ℕ) (s : State)
    → IsSound s
    → Takes [] s (periodic_flush now mono s) × IsSound (periodic_flush now mono s)
Takes-periodic_flush now mono s h = elim (periodic_flush_cases now mono s h) [
  | inl e ↦
      rw e
        (record { events = sym (append-nil (taken_in s)); same_hide = refl; same_size = refl }, h)
  | inr e ↦
      let (returned, kept) = commit_locked-Sound now s h in rw e (Takes-commit now s returned, kept)
]

-- The submitted events that the matcher of the moment does not hide, in order.
unfoldable pub accepted : (String → Bool) → List Call → List HaEvent
accepted hide [] = []
accepted hide (submit_call event now mono ∷ cs) = admitted hide event ++ accepted hide cs
accepted hide (tick now mono ∷ cs) = accepted hide cs
accepted hide (flush now ∷ cs) = accepted hide cs
accepted hide (reload hide' ∷ cs) = accepted hide' cs
accepted hide (rebuild index ∷ cs) = accepted hide cs

-- A run of sound calls returns, and has taken in the accepted events after what was there.
abbrev pub Delivers : List HaEvent → State → Outcome → Type 0
Delivers new s o = (o.0 ≡ ok tt) × IsSound o.1 × (taken_in o.1 ≡ taken_in s ++ new)

Delivers-after :
    (new : List HaEvent) (s t : State) (cs : List Call) (o : Outcome)
    → Takes new s t
    → Delivers (accepted t.hide cs) t o
    → Delivers (new ++ accepted s.hide cs) s o
Delivers-after new s t cs o taken (returned, kept, e) = (
  returned,
  kept,
  e
      ∙ ap (λ hide. taken_in t ++ accepted hide cs) taken.same_hide
      ∙ ap (λ x. x ++ accepted s.hide cs) taken.events
      ∙ append_assoc (taken_in s) new (accepted s.hide cs),
)

pub run-Delivers :
    (cs : List Call) (s : State) → IsSound s → Delivers (accepted s.hide cs) s (run cs s)
unfolding run accepted
run-Delivers [] s h = (refl, h, sym (append-nil (taken_in s)))
run-Delivers (submit_call event now mono ∷ cs) s h =
    let (returned, kept) = submit-Sound event now mono s h in
    let t = (submit event now mono s).1 in
    rw returned (
      Delivers-after (admitted s.hide event) s t cs (run cs t)
        (submit-Takes event now mono s returned) (run-Delivers cs t kept))
run-Delivers (tick now mono ∷ cs) s h =
    let (taken, kept) = Takes-periodic_flush now mono s h in
    let t = periodic_flush now mono s in
    Delivers-after [] s t cs (run cs t) taken (run-Delivers cs t kept)
run-Delivers (flush now ∷ cs) s h =
    let (returned, kept) = commit_locked-Sound now s h in
    let t = (commit_locked now s).1 in
    rw returned
      (Delivers-after [] s t cs (run cs t) (Takes-commit now s returned) (run-Delivers cs t kept))
run-Delivers (reload hide ∷ cs) s h =
    run-Delivers cs (record s { pipeline = record s.pipeline { hide = hide } }) h
run-Delivers (rebuild index ∷ cs) s h =
    run-Delivers cs (record s { pipeline = record s.pipeline { index = index } }) h

pub stop-commit :
    (now : ℕ) (s : State)
    → IsSound s
    → stop now s ≡ commit_locked now (record s { pipeline = record s.pipeline { stopped = true } })
unfolding stop
stop-commit now s h = ground arith

-- When no write fails, a run of calls and the shutdown after it return, and then the event table
-- holds, after the events that were stored or buffered before, exactly the submitted events that
-- the matcher of their moment did not hide, each once and in the order of submission; the buffer is
-- empty.
pub run_and_stop_delivers :
    (cs : List Call) (now : ℕ) (s : State)
    → IsSound s
    → ((run_and_stop cs now s).0 ≡ ok tt)
      × (history (run_and_stop cs now s).1.world.db.events ≡ taken_in s ++ accepted s.hide cs)
      × ((run_and_stop cs now s).1.buffer ≡ [])
unfolding run_and_stop
run_and_stop_delivers cs now s h =
    let (returned, kept, e) = run-Delivers cs s h in
    let t = (run cs s).1 in
    let t' : State = record t { pipeline = record t.pipeline { stopped = true } } in
    let (flushed, _) = commit_locked-Sound now t' kept in
    let c = commit_locked-Stores now t' flushed in
    rw (returned, next, stop-commit now t kept) (flushed, c.stored ∙ e, c.emptied)
