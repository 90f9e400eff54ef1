-- ===== src/Tests/Pipeline.antt =====
-- The ingest pipeline on the small home.
use ai_home_assistant.Prelude.{
  ◌+◌, none, some, true, false, List, [], ◌∷◌, ◌++◌, ◌≡◌, refl, arith, if◌then◌else◌, ◌==◌,
  string_eq, count_if, any,
}
use ai_home_assistant.Prelude.Dict.{get, alter, modify}
use ai_home_assistant.Store.Rows.{EntityRow}
use ai_home_assistant.Store.Exec.{ok, raise, sqlite_error, empty_db}
use ai_home_assistant.Store.Dao.{
  insert_events, increment_counter, increment_privacy_drop, bump_entity_event_counts,
}
use ai_home_assistant.Topology.EntityIndex.{EntityIndex, lookup}
use ai_home_assistant.Ingest.Batch.{Buffered, collect, write_batch}
use ai_home_assistant.Ingest.Batch.Collect.{counts_for, is_of}
use ai_home_assistant.Ingest.Batch.Writes.{history, counter_of}
use ai_home_assistant.Ingest.Pipeline.{
  Pipeline, State, running, commit_locked, submit, enqueue, periodic_flush, stop,
}
use ai_home_assistant.Ingest.Pipeline.Conservation.{taken_in, events_in}
use ai_home_assistant.Ingest.Pipeline.Counts.{
  counter-commit_locked, total_event_count-commit_locked,
}
use ai_home_assistant.Ingest.Pipeline.Faults.{before, commit_locked_twice, stop_after_failed_flush}
use ai_home_assistant.Ingest.Run.{Call, submit_call, tick}
use ai_home_assistant.Ingest.Run.Delivery.{accepted}
use ai_home_assistant.Tests.Data.{seen, light_row, event_at}

program : Unit {0}
unfolding enqueue commit_locked submit periodic_flush stop write_batch collect insert_events
    increment_counter increment_privacy_drop bump_entity_event_counts lookup get alter modify
program = tt

abbrev index : EntityIndex
index =
    (
      "light.k",
      record {
        device_id = some "d1";
        area_id = some "kitchen";
        device_class = none;
        snapshot_id = 1;
      },
    )
    ∷ []

abbrev pub idle : Pipeline
idle = record {
  index = index;
  hide = λ k. k == "person.guest";
  batch_size = 100;
  batch_interval = 1000;
  buffer = [];
  first_added = none;
  stopped = false;
  flush_task = running;
}

abbrev two_lights : List Buffered
two_lights = (event_at 10 "light.k", 1) ∷ (event_at 20 "light.k", 1) ∷ []

abbrev waiting : State
waiting = record {
  pipeline = record idle { buffer = two_lights; first_added = some 5 };
  world = seen;
}

abbrev pub failing : State
failing = record waiting { world = record seen { faults = true ∷ [] } }

abbrev pub calls : List Call
calls =
    submit_call (event_at 10 "light.k") 10 1
    ∷ submit_call (event_at 11 "person.guest") 11 2
    ∷ tick 2000 2000
    ∷ submit_call (event_at 12 "sensor.x") 12 3
    ∷ []

guest_is_dropped : accepted idle.hide calls ≡ event_at 10 "light.k" ∷ event_at 12 "sensor.x" ∷ []
unfolding accepted
guest_is_dropped = refl

submit_returns : (submit (event_at 30 "sensor.x") 30 6 waiting).0 ≡ ok tt
unfolding program
submit_returns = refl

commit_returns : (commit_locked 50 waiting).0 ≡ ok tt
unfolding program
commit_returns = refl

counter-commit_locked_example :
    counter_of ("kitchen", 0) (commit_locked 50 waiting).1.world.db
    ≡ counter_of ("kitchen", 0) seen.db + count_if (counts_for index ("kitchen", 0)) two_lights
counter-commit_locked_example = counter-commit_locked 50 waiting ("kitchen", 0) commit_returns

total_event_count-commit_locked_example :
    (new : EntityRow) × (get "light.k" (commit_locked 50 waiting).1.world.db.entities ≡ some new)
    × (new.total_event_count ≡ 7 + (if any (is_of "light.k") two_lights then 1 else 0))
unfolding get
total_event_count-commit_locked_example =
    total_event_count-commit_locked 50 waiting "light.k" light_row refl commit_returns

commit_locked_twice_example :
    ((commit_locked 50 (before idle empty_db (event_at 10 "light.k", 1) [] 50)).0
      ≡ raise sqlite_error)
    × ((commit_locked 60
          (commit_locked 50 (before idle empty_db (event_at 10 "light.k", 1) [] 50)).1).0
        ≡ ok tt)
    × (history
          (commit_locked 60
            (commit_locked 50
              (before idle empty_db (event_at 10 "light.k", 1) [] 50)).1).1.world.db.events
        ≡ taken_in (before idle empty_db (event_at 10 "light.k", 1) [] 50)
          ++ events_in ((event_at 10 "light.k", 1) ∷ []))
unfolding program
commit_locked_twice_example =
    commit_locked_twice idle empty_db (event_at 10 "light.k", 1) [] 50 "kitchen" 0 1 [] 60 refl

commit_fails : (commit_locked 2000 failing).0 ≡ raise sqlite_error
unfolding program
commit_fails = refl

stop_after_failed_flush_example :
    ((stop 3000 (periodic_flush 2000 2000 failing)).0 ≡ raise sqlite_error)
    × ((stop 3000 (periodic_flush 2000 2000 failing)).1.buffer ≡ two_lights)
    × ((stop 3000 (periodic_flush 2000 2000 failing)).1.world
        ≡ (commit_locked 2000 failing).1.world)
stop_after_failed_flush_example =
    stop_after_failed_flush 5 2000 2000 3000 failing sqlite_error refl refl refl (omega arith)
      commit_fails
