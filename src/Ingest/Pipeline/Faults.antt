-- ===== src/Ingest/Pipeline/Faults.antt =====
-- What a failing write leaves.
use ai_home_assistant.Prelude.{
  ℕ, ◌+◌, ◌≤◌, String, some, true, false, List, [], ◌∷◌, ◌++◌, map, ◌≡◌, refl, arith, ◌∙◌, ap,
  string_eq, nat_eq, pair_eq,
}
use ai_home_assistant.Prelude.Dict.{Dict}
use ai_home_assistant.Store.Rows.{EventRow}
use ai_home_assistant.Store.Exec.{Db, Error, ok, raise, sqlite_error, transaction}
use ai_home_assistant.Store.Dao.{append_events, insert_events, increment_counter}
use ai_home_assistant.Ingest.Batch.{Batch, Buffered, event_row, collect, empty_batch, write_batch}
use ai_home_assistant.Ingest.Batch.Collect.{rows-collect}
use ai_home_assistant.Ingest.Batch.Total.{write_batch-Succeeds}
use ai_home_assistant.Ingest.Batch.Writes.{history, history-append_events}
use ai_home_assistant.Ingest.Pipeline.{
  Pipeline, State, running, write_buffer, commit_locked, periodic_flush, stop,
}
use ai_home_assistant.Ingest.Pipeline.Conservation.{
  taken_in, events_in, events-rows, commit_locked-Stores,
}

-- A commit that raises keeps the buffer: nothing that was taken in is given up.
write_buffer_raises :
    (bs : List Buffered) (now : ℕ) (s : State) (x : Error)
    → (write_buffer bs now s).0 ≡ raise x
    → (write_buffer bs now s).1.pipeline ≡ s.pipeline
write_buffer_raises [] now s x h = cc
write_buffer_raises (b ∷ bs) now s x h = rw h

pub commit_locked_raises :
    (now : ℕ) (s : State) (x : Error)
    → (commit_locked now s).0 ≡ raise x
    → (commit_locked now s).1.pipeline ≡ s.pipeline
unfolding commit_locked
commit_locked_raises now s x h = write_buffer_raises s.buffer now s x h

-- The insert of the events is committed, and the first counter's transaction fails.
write_batch_cut :
    (r : EventRow) (rs : List EventRow) (a : String) (h n : ℕ) (d : Dict (String × ℕ) ℕ)
    (f : Dict String ℕ) (db : Db)
    → write_batch
        (record { rows = r ∷ rs; per_area = ((a, h), n) ∷ d; per_entity_last = f })
        (record { db = db; faults = false ∷ true ∷ [] })
      ≡ (raise sqlite_error, record { db = append_events (r ∷ rs) db; faults = [] })
unfolding write_batch insert_events increment_counter transaction
write_batch_cut r rs a h n d f db = refl

module _ (p : Pipeline) (db : Db) (b : Buffered) (bs : List Buffered) (now : ℕ) where
  abbrev batch : Batch
  batch = collect p.index now (b ∷ bs) empty_batch

  -- A buffer of some events, and a world where the second write to come fails.
  abbrev pub before : State
  before = record {
    pipeline = record p { buffer = b ∷ bs };
    world = record { db = db; faults = false ∷ true ∷ [] };
  }

  abbrev pub inserted : State
  inserted = record {
    pipeline = record p { buffer = b ∷ bs };
    world = record { db = append_events (map (event_row p.index now) (b ∷ bs)) db; faults = [] };
  }

  cut :
      (a : String) (h n : ℕ) (d : Dict (String × ℕ) ℕ)
      → batch.per_area ≡ ((a, h), n) ∷ d
      → commit_locked now before ≡ (raise sqlite_error, inserted)
  unfolding commit_locked
  cut a h n d areas =
      let shape : batch ≡ record {
        rows = map (event_row p.index now) (b ∷ bs);
        per_area = ((a, h), n) ∷ d;
        per_entity_last = batch.per_entity_last;
      } =
        λ i. record {
          rows = rows-collect p.index now (b ∷ bs) empty_batch i;
          per_area = areas i;
          per_entity_last = batch.per_entity_last;
        } in
      let e =
        write_batch_cut (event_row p.index now b) (map (event_row p.index now) bs) a h n d
          batch.per_entity_last db in
      rw (shape, e)

  history-inserted : history inserted.world.db.events ≡ taken_in before
  history-inserted =
      history-append_events (map (event_row p.index now) (b ∷ bs)) db
      ∙ ap (◌++◌ (history db.events)) (events-rows p.index now (b ∷ bs))

  -- When the insert of a batch is committed and the next write, a counter's, fails, the commit
  -- raises and keeps the buffer; the next commit, in which nothing fails, stores every event of the
  -- buffer a second time.
  pub commit_locked_twice :
      (a : String) (h n : ℕ) (d : Dict (String × ℕ) ℕ) (now' : ℕ)
      → batch.per_area ≡ ((a, h), n) ∷ d
      → ((commit_locked now before).0 ≡ raise sqlite_error)
        × ((commit_locked now' (commit_locked now before).1).0 ≡ ok tt)
        × (history (commit_locked now' (commit_locked now before).1).1.world.db.events
            ≡ taken_in before ++ events_in (b ∷ bs))
  commit_locked_twice a h n d now' areas =
      let e = cut a h n d areas in
      let returned : (commit_locked now' inserted).0 ≡ ok tt =
        unfold commit_locked in
        (write_batch-Succeeds (collect p.index now' (b ∷ bs) empty_batch) inserted.world refl).0 in
      rw e (
        refl,
        returned,
        (commit_locked-Stores now' inserted returned).stored
            ∙ ap (λ x. x ++ events_in (b ∷ bs)) history-inserted,
      )

-- When a commit of the background task fails, the task ends with the error, and `stop` raises that
-- error with the buffer still full and nothing more stored.
pub stop_after_failed_flush :
    (first now mono now' : ℕ) (s : State) (x : Error)
    → s.flush_task ≡ running
    → s.stopped ≡ false
    → s.first_added ≡ some first
    → first + s.batch_interval ≤ mono
    → (commit_locked now s).0 ≡ raise x
    → ((stop now' (periodic_flush now mono s)).0 ≡ raise x)
      × ((stop now' (periodic_flush now mono s)).1.buffer ≡ s.buffer)
      × ((stop now' (periodic_flush now mono s)).1.world ≡ (commit_locked now s).1.world)
unfolding periodic_flush stop
stop_after_failed_flush first now mono now' s x is_running live stamp due failing =
    let kept = commit_locked_raises now s x failing in ground (arith, kept)
