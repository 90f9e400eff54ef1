-- ===== src/Ingest/Run/Loss.antt =====
-- No event is lost and none is made up, whatever writes fail.
use ai_home_assistant.Prelude.{
  true, ℕ, ◌⊎◌, List, [], ◌∷◌, ◌++◌, ◌≡◌, refl, ◌∙◌, ap, arith, inl, inr, leb, length, Bool-cases,
  append_assoc, append-nil,
}
use ai_home_assistant.Prelude.Covers.{
  Covers, Covers-refl, Covers-trans, Covers-append, Covers-again,
}
use ai_home_assistant.Store.Exec.{ok, raise, Result-cases}
use ai_home_assistant.Ingest.Batch.{HaEvent, Buffered, collect, empty_batch}
use ai_home_assistant.Ingest.Batch.Writes.{history, history-write_batch}
use ai_home_assistant.Ingest.Pipeline.{
  Task, not_started, running, failed, await_task, stop, State, Outcome, task_outcome, write_buffer,
  commit_if_full, commit_locked, drop_hidden, enqueue, submit, periodic_flush,
}
use ai_home_assistant.Ingest.Pipeline.Conservation.{
  taken_in, events_in, events-collect, admitted, Takes-commit, submit_lem, taken_in-enqueue,
  drop-events,
}
use ai_home_assistant.Ingest.Pipeline.Faults.{commit_locked_raises}
use ai_home_assistant.Ingest.Run.{Call, submit_call, tick, flush, reload, rebuild, run_through}
use ai_home_assistant.Ingest.Run.Delivery.{accepted}

-- What a call keeps, whatever its outcome: the events taken in before and the new ones, in order,
-- and no others, maybe with some of them again.
pub record Keeps (new : List HaEvent) (s t : State) : Type 0 where
  pub events : Covers (taken_in s ++ new) (taken_in t)
  pub same_hide : t.hide ≡ s.hide

write_buffer-history :
    (bs : List Buffered) (now : ℕ) (s : State)
    → (history (write_buffer bs now s).1.world.db.events ≡ history s.world.db.events)
      ⊎ (history (write_buffer bs now s).1.world.db.events
          ≡ history s.world.db.events ++ events_in bs)
write_buffer-history [] now s = inl refl
write_buffer-history (b ∷ bs) now s =
    let batch = collect s.index now (b ∷ bs) empty_batch in
    elim (history-write_batch batch s.world) [
      | inl (_, same) ↦ inl (ap (λ db. history db.events) same)
      | inr (_, more) ↦
          inr (more ∙ ap (◌++◌ (history s.world.db.events)) (events-collect s.index now (b ∷ bs)))
    ]

commit_locked-history :
    (now : ℕ) (s : State)
    → (history (commit_locked now s).1.world.db.events ≡ history s.world.db.events)
      ⊎ (history (commit_locked now s).1.world.db.events
          ≡ history s.world.db.events ++ events_in s.buffer)
unfolding commit_locked
commit_locked-history now s = write_buffer-history s.buffer now s

Keeps-same : (s t : State) → taken_in t ≡ taken_in s → t.hide ≡ s.hide → Keeps [] s t
Keeps-same s t e h = record {
  events = rw (append-nil (taken_in s), e) (Covers-refl (taken_in s));
  same_hide = h;
}

-- A commit that fails after the insert keeps the buffer, so its events are there twice.
pub Keeps-commit : (now : ℕ) (s : State) → Keeps [] s (commit_locked now s).1
Keeps-commit now s = elim (Result-cases (commit_locked now s).0) [
  | inl (_, returned) ↦
      let c = Takes-commit now s returned in
      Keeps-same s (commit_locked now s).1 (c.events ∙ append-nil (taken_in s)) c.same_hide
  | inr (x, raised) ↦
      let same = commit_locked_raises now s x raised in
      let t = (commit_locked now s).1 in
      let b : events_in t.buffer ≡ events_in s.buffer = ap (λ p. events_in p.buffer) same in
      let hide : t.hide ≡ s.hide = ap (λ p. p.hide) same in
      elim (commit_locked-history now s) [
        | inl e ↦
            Keeps-same s t
              (ap (λ h. h ++ events_in t.buffer) e ∙ ap (◌++◌ (history s.world.db.events)) b) hide
        | inr e ↦
            let twice : taken_in t ≡ taken_in s ++ events_in s.buffer =
              ap (λ h. h ++ events_in t.buffer) e ∙ ap (◌++◌ (taken_in s)) b in
            record {
              events =
                  rw (append-nil (taken_in s), twice)
                    (Covers-again (history s.world.db.events) (events_in s.buffer));
              same_hide = hide;
            }
      ]
]

Keeps-commit_if_full : (now : ℕ) (s : State) → Keeps [] s (commit_if_full now s).1
Keeps-commit_if_full now s = elim (Bool-cases (leb s.batch_size (length s.buffer))) [
  | inl full ↦ rw full (Keeps-commit now s)
  | inr room ↦ rw room (Keeps-same s s refl refl)
]

Keeps-drop_hidden : (now : ℕ) (s : State) → Keeps [] s (drop_hidden now s).1
unfolding drop_hidden
Keeps-drop_hidden now s =
    Keeps-same s _ (ap (λ x. history x ++ events_in s.buffer) (drop-events _ 1 s.world)) refl

pub Keeps-submit :
    (event : HaEvent) (now mono : ℕ) (s : State)
    → Keeps (admitted s.hide event) s (submit event now mono s).1
Keeps-submit event now mono s = elim (Bool-cases (s.hide event.entity_id)) [
  | inl hidden ↦ rw (submit_lem event now mono s, hidden) (Keeps-drop_hidden now s)
  | inr shown ↦
      let t = enqueue event mono s in
      let k = Keeps-commit_if_full now t in
      let e = taken_in-enqueue event now mono s in
      rw (submit_lem event now mono s, shown)
        (record {
          events = rw (← e) (rw (append-nil (taken_in t)) at k.events);
          same_hide = k.same_hide ∙ (unfold enqueue in refl);
        })
]

periodic_flush-wakes :
    (now mono : ℕ) (s : State)
    → (periodic_flush now mono s ≡ s)
      ⊎ (periodic_flush now mono s ≡ task_outcome (commit_locked now s))
unfolding periodic_flush
periodic_flush-wakes now mono s = ground arith

Keeps-task_outcome : (s : State) (o : Outcome) → Keeps [] s o.1 → Keeps [] s (task_outcome o)
Keeps-task_outcome s (ok _, t) k = k
Keeps-task_outcome s (raise x, t) k = record { events = k.events; same_hide = k.same_hide }

pub Keeps-periodic_flush : (now mono : ℕ) (s : State) → Keeps [] s (periodic_flush now mono s)
Keeps-periodic_flush now mono s = elim (periodic_flush-wakes now mono s) [
  | inl e ↦ rw e (Keeps-same s s refl refl)
  | inr e ↦ rw e (Keeps-task_outcome s (commit_locked now s) (Keeps-commit now s))
]

Keeps-await_task :
    (task : Task) (now : ℕ) (s : State)
    → Keeps [] s
        (await_task task now (record s { pipeline = record s.pipeline { stopped = true } })).1
Keeps-await_task not_started now s =
    let k = Keeps-commit now (record s { pipeline = record s.pipeline { stopped = true } }) in
    record { events = k.events; same_hide = k.same_hide }
Keeps-await_task running now s =
    let k = Keeps-commit now (record s { pipeline = record s.pipeline { stopped = true } }) in
    record { events = k.events; same_hide = k.same_hide }
Keeps-await_task (failed x) now s =
    Keeps-same s (record s { pipeline = record s.pipeline { stopped = true } }) refl refl

-- The shutdown loses nothing of what is stored or buffered, also where it raises.
pub Keeps-stop : (now : ℕ) (s : State) → Keeps [] s (stop now s).1
unfolding stop
Keeps-stop now s = Keeps-await_task s.flush_task now s

Keeps-after :
    (new : List HaEvent) (s t : State) (cs : List Call) (later : List HaEvent)
    → Keeps new s t
    → Covers (taken_in t ++ accepted t.hide cs) later
    → Covers (taken_in s ++ (new ++ accepted s.hide cs)) later
Keeps-after new s t cs later k rest =
    let here : Covers (taken_in s ++ (new ++ accepted s.hide cs))
        (taken_in t ++ accepted s.hide cs) =
      rw (← append_assoc (taken_in s) new (accepted s.hide cs))
        (Covers-append (accepted s.hide cs) k.events) in
    Covers-trans here (rw k.same_hide at rest)

-- Whatever writes fail, and also when the background task has ended: after any calls the events that
-- were stored or buffered before and the submitted ones that the matcher of their moment did not
-- hide are stored or buffered, in the order of submission, and no others. Some may be there twice.
pub run_through-Covers :
    (cs : List Call) (s : State)
    → Covers (taken_in s ++ accepted s.hide cs) (taken_in (run_through cs s))
unfolding run_through accepted
run_through-Covers [] s = rw (append-nil (taken_in s)) (Covers-refl (taken_in s))
run_through-Covers (submit_call event now mono ∷ cs) s =
    let t = (submit event now mono s).1 in
    Keeps-after (admitted s.hide event) s t cs (taken_in (run_through cs t))
      (Keeps-submit event now mono s) (run_through-Covers cs t)
run_through-Covers (tick now mono ∷ cs) s =
    let t = periodic_flush now mono s in
    Keeps-after [] s t cs (taken_in (run_through cs t)) (Keeps-periodic_flush now mono s)
      (run_through-Covers cs t)
run_through-Covers (flush now ∷ cs) s =
    let t = (commit_locked now s).1 in
    Keeps-after [] s t cs (taken_in (run_through cs t)) (Keeps-commit now s)
      (run_through-Covers cs t)
run_through-Covers (reload hide ∷ cs) s =
    run_through-Covers cs (record s { pipeline = record s.pipeline { hide = hide } })
run_through-Covers (rebuild index ∷ cs) s =
    run_through-Covers cs (record s { pipeline = record s.pipeline { index = index } })
