-- ===== src/Ingest/Run/Progress.antt =====
-- How long the pipeline of src/ai_ha/ingest/pipeline.py holds an event back.
use ai_home_assistant.Prelude.{
  ℕ, ◌+◌, ◌≤◌, false, ◌⊎◌, none, some, List, [], ◌∷◌, ◌++◌, ◌≡◌, refl, ◌∙◌, sym, arith, inl, inr,
  leb, length, Bool-cases, append-nil, All,
}
use ai_home_assistant.Store.Sound.{increment_privacy_drop-Succeeds}
use ai_home_assistant.Ingest.Batch.{HaEvent, Buffered, collect, empty_batch}
use ai_home_assistant.Ingest.Batch.Total.{write_batch-Succeeds}
use ai_home_assistant.Ingest.Batch.Writes.{history}
use ai_home_assistant.Ingest.Pipeline.{
  State, running, write_buffer, commit_locked, drop_hidden, enqueue, submit, periodic_flush,
}
use ai_home_assistant.Ingest.Pipeline.Conservation.{taken_in, submit_lem, commit_locked-Stores}
use ai_home_assistant.Ingest.Run.{Call, submit_call, tick, flush, reload, rebuild, run}
use ai_home_assistant.Ingest.Run.Delivery.{
  IsSound, commit_locked-Sound, submit-Sound, periodic_flush_cases, Takes-periodic_flush, accepted,
  run-Delivers,
}

-- No write fails and the background task runs, with the interval `n`; a buffer that is not empty
-- carries the time of its first event, no later than `m`.
pub record IsReady (n m : ℕ) (s : State) : Type 0 where
  pub faultless : s.world.faults ≡ []
  pub task : s.flush_task ≡ running
  pub going : s.stopped ≡ false
  pub interval : s.batch_interval ≡ n
  pub stamp :
      ((s.buffer ≡ []) × (s.first_added ≡ none)) ⊎ ((t : ℕ) × (s.first_added ≡ some t) × (t ≤ m))

abbrev pub Until : ℕ → Call → Type 0
Until m (submit_call event now mono) = mono ≤ m
Until m (tick now mono) = Unit
Until m (flush now) = Unit
Until m (reload hide) = Unit
Until m (rebuild index) = Unit

module _ (n m : ℕ) where
  pub IsReady-IsSound : (s : State) → IsReady n m s → IsSound s
  IsReady-IsSound s r = (r.faultless, inr r.task)

  write_buffer-IsReady :
      (bs : List Buffered) (now : ℕ) (s : State)
      → IsReady n m s
      → IsReady n m (write_buffer bs now s).1
  write_buffer-IsReady [] now s r = r
  write_buffer-IsReady (b ∷ bs) now s r =
      let (returned, rest) =
        write_batch-Succeeds (collect s.index now (b ∷ bs) empty_batch) s.world r.faultless in
      record {
        faultless = rest;
        task = rw returned r.task;
        going = rw returned r.going;
        interval = rw returned r.interval;
        stamp = rw returned (inl (refl, refl));
      }

  commit_locked-IsReady :
      (now : ℕ) (s : State) → IsReady n m s → IsReady n m (commit_locked now s).1
  unfolding commit_locked
  commit_locked-IsReady now s r = write_buffer-IsReady s.buffer now s r

  enqueue-IsReady :
      (event : HaEvent) (mono : ℕ) (s : State)
      → mono ≤ m
      → IsReady n m s
      → IsReady n m (enqueue event mono s)
  unfolding enqueue
  enqueue-IsReady event mono s b r = record {
    faultless = r.faultless;
    task = r.task;
    going = r.going;
    interval = r.interval;
    stamp = elim r.stamp [
      | inl (_, e) ↦ inr (mono, rw e refl, b)
      | inr (t, e, le) ↦ inr (t, rw e refl, le)
    ];
  }

  drop_hidden-IsReady : (now : ℕ) (s : State) → IsReady n m s → IsReady n m (drop_hidden now s).1
  unfolding drop_hidden
  drop_hidden-IsReady now s r = record {
    faultless = (increment_privacy_drop-Succeeds _ 1 "" s.world r.faultless).1;
    task = r.task;
    going = r.going;
    interval = r.interval;
    stamp = r.stamp;
  }

  submit-IsReady :
      (event : HaEvent) (now mono : ℕ) (s : State)
      → mono ≤ m
      → IsReady n m s
      → IsReady n m (submit event now mono s).1
  submit-IsReady event now mono s b r = elim (Bool-cases (s.hide event.entity_id)) [
    | inl hidden ↦ rw (submit_lem event now mono s, hidden) (drop_hidden-IsReady now s r)
    | inr shown ↦
        let t = enqueue event mono s in
        let r' = enqueue-IsReady event mono s b r in
        rw (submit_lem event now mono s, shown)
          (elim (Bool-cases (leb t.batch_size (length t.buffer))) [
            | inl full ↦ rw full (commit_locked-IsReady now t r')
            | inr more ↦ rw more r'
          ])
  ]

  periodic_flush-IsReady :
      (now mono : ℕ) (s : State) → IsReady n m s → IsReady n m (periodic_flush now mono s)
  periodic_flush-IsReady now mono s r =
      elim (periodic_flush_cases now mono s (IsReady-IsSound s r)) [
        | inl e ↦ rw e r
        | inr e ↦ rw e (commit_locked-IsReady now s r)
      ]

  run-IsReady :
      (cs : List Call) (s : State) → All (Until m) cs → IsReady n m s → IsReady n m (run cs s).1
  unfolding run
  run-IsReady [] s u r = r
  run-IsReady (submit_call event now mono ∷ cs) s u r =
      let (returned, _) = submit-Sound event now mono s (IsReady-IsSound s r) in
      rw returned
        (run-IsReady cs (submit event now mono s).1 u.1 (submit-IsReady event now mono s u.0 r))
  run-IsReady (tick now mono ∷ cs) s u r =
      run-IsReady cs (periodic_flush now mono s) u.1 (periodic_flush-IsReady now mono s r)
  run-IsReady (flush now ∷ cs) s u r =
      let (returned, _) = commit_locked-Sound now s (IsReady-IsSound s r) in
      rw returned (run-IsReady cs (commit_locked now s).1 u.1 (commit_locked-IsReady now s r))
  run-IsReady (reload hide ∷ cs) s u r =
      run-IsReady cs (record s { pipeline = record s.pipeline { hide = hide } }) u.1
        (record {
          faultless = r.faultless;
          task = r.task;
          going = r.going;
          interval = r.interval;
          stamp = r.stamp;
        })
  run-IsReady (rebuild index ∷ cs) s u r =
      run-IsReady cs (record s { pipeline = record s.pipeline { index = index } }) u.1
        (record {
          faultless = r.faultless;
          task = r.task;
          going = r.going;
          interval = r.interval;
          stamp = r.stamp;
        })

  due-commits :
      (now mono t : ℕ) (s : State)
      → IsReady n m s
      → s.first_added ≡ some t
      → t + n ≤ mono
      → periodic_flush now mono s ≡ (commit_locked now s).1
  unfolding periodic_flush
  due-commits now mono t s r e due =
      let task = r.task in
      let going = r.going in
      let interval = r.interval in
      let (returned, _) = commit_locked-Sound now s (IsReady-IsSound s r) in ground arith

  emptied :
      (now mono : ℕ) (s : State)
      → IsReady n m s
      → m + n ≤ mono
      → (periodic_flush now mono s).buffer ≡ []
  emptied now mono s r due = elim r.stamp [
    | inl (e, none_yet) ↦ elim (periodic_flush_cases now mono s (IsReady-IsSound s r)) [
      | inl same ↦ rw same e
      | inr done ↦
          rw done
            (commit_locked-Stores now s (commit_locked-Sound now s (IsReady-IsSound s r)).0).emptied
    ]
    | inr (t, e, le) ↦
        rw (due-commits now mono t s r e (omega arith))
          (commit_locked-Stores now s (commit_locked-Sound now s (IsReady-IsSound s r)).0).emptied
  ]

  -- The task's first waking that is a batch interval `n` or more after the last submission, at `m`
  -- at the latest, leaves the buffer empty: the table then holds all that was stored or buffered
  -- before and every submitted event that was not hidden, each once and in order. No write fails.
  pub tick_delivers :
      (cs : List Call) (now mono : ℕ) (s : State)
      → All (Until m) cs
      → IsReady n m s
      → m + n ≤ mono
      → let t = periodic_flush now mono (run cs s).1 in
        (t.buffer ≡ []) × (history t.world.db.events ≡ taken_in s ++ accepted s.hide cs)
  tick_delivers cs now mono s u r due =
      let s' = (run cs s).1 in
      let r' = run-IsReady cs s u r in
      let e = emptied now mono s' r' due in
      let (_, _, all_in) = run-Delivers cs s (IsReady-IsSound s r) in
      let (taken, _) = Takes-periodic_flush now mono s' (IsReady-IsSound s' r') in
      let t = periodic_flush now mono s' in
      let stored : taken_in t ≡ history t.world.db.events =
        rw (e, append-nil (history t.world.db.events)) refl in
      (e, sym stored ∙ taken.events ∙ append-nil (taken_in s') ∙ all_in)
