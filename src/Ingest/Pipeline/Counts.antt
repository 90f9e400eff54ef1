-- ===== src/Ingest/Pipeline/Counts.antt =====
-- What a commit adds to the hourly counters and to the entities' counts.
use ai_home_assistant.Prelude.{
  ℕ, ◌+◌, String, some, List, [], ◌∷◌, ◌≡◌, arith, ◌∙◌, ap, if◌then◌else◌, count_if, any, string_eq,
}
use ai_home_assistant.Prelude.Dict.{get}
use ai_home_assistant.Store.Rows.{EntityRow}
use ai_home_assistant.Store.Exec.{ok}
use ai_home_assistant.Ingest.Batch.{Buffered, collect, empty_batch}
use ai_home_assistant.Ingest.Batch.Collect.{tally-collect, entries_of-collect, counts_for, is_of}
use ai_home_assistant.Ingest.Batch.Writes.{counter_of, counter-write_batch, counted-write_batch}
use ai_home_assistant.Ingest.Pipeline.{State, write_buffer, commit_locked}

module _ (now : ℕ) where
  write_buffer-counter :
      (bs : List Buffered) (s : State) (k : String × ℕ)
      → (write_buffer bs now s).0 ≡ ok tt
      → counter_of k (write_buffer bs now s).1.world.db
        ≡ counter_of k s.world.db + count_if (counts_for s.index k) bs
  write_buffer-counter [] s k h = omega arith
  write_buffer-counter (b ∷ bs) s k h =
      let batch = collect s.index now (b ∷ bs) empty_batch in
      omega (
        arith,
        counter-write_batch batch s.world h k,
        tally-collect s.index now (b ∷ bs) empty_batch k,
      )

  -- A commit that returns adds to each counter of an area and an hour the number of buffered events
  -- of that hour whose entity the index places in that area.
  pub counter-commit_locked :
      (s : State) (k : String × ℕ)
      → (commit_locked now s).0 ≡ ok tt
      → counter_of k (commit_locked now s).1.world.db
        ≡ counter_of k s.world.db + count_if (counts_for s.index k) s.buffer
  unfolding commit_locked
  counter-commit_locked s k h = write_buffer-counter s.buffer s k h

  write_buffer-counted :
      (bs : List Buffered) (s : State) (k : String) (row : EntityRow)
      → get k s.world.db.entities ≡ some row
      → (write_buffer bs now s).0 ≡ ok tt
      → (new : EntityRow) × (get k (write_buffer bs now s).1.world.db.entities ≡ some new)
        × (new.total_event_count ≡ row.total_event_count + (if any (is_of k) bs then 1 else 0))
  write_buffer-counted [] s k row there h = (row, there, omega arith)
  write_buffer-counted (b ∷ bs) s k row there h =
      let batch = collect s.index now (b ∷ bs) empty_batch in
      let (new, kept, n) = counted-write_batch batch s.world h k row there in
      (
        new,
        kept,
        n
            ∙ ap (λ m. row.total_event_count + m)
                (entries_of-collect s.index now (b ∷ bs) empty_batch k (omega arith)),
      )

  -- A commit that returns adds 1 to an entity's total count if the buffer holds an event of it, and
  -- no more however many it holds.
  pub total_event_count-commit_locked :
      (s : State) (k : String) (row : EntityRow)
      → get k s.world.db.entities ≡ some row
      → (commit_locked now s).0 ≡ ok tt
      → (new : EntityRow) × (get k (commit_locked now s).1.world.db.entities ≡ some new)
        × (new.total_event_count
            ≡ row.total_event_count + (if any (is_of k) s.buffer then 1 else 0))
  unfolding commit_locked
  total_event_count-commit_locked s k row there h = write_buffer-counted s.buffer s k row there h
