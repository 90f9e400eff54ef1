-- ===== src/Tests/Service.antt =====
-- The handlers of the service, the connections to Home Assistant and the migrations on small inputs.
use ai_home_assistant.Prelude.{
  length, ◌*◌, ◌≤◌, ℕ, ◌+◌, String, Option, none, some, Bool, true, false, if◌then◌else◌, [], ◌∷◌,
  ◌≡◌, refl, arith, ◌==◌, string_eq, nat_eq,
}
use ai_home_assistant.Prelude.Dict.{get}
use ai_home_assistant.Store.Exec.{ok}
use ai_home_assistant.Store.Dao.{increment_privacy_drop}
use ai_home_assistant.Store.Migrations.{
  Migration, Schema, migrated, migration_error, finished, executescript, apply_migrations,
}
use ai_home_assistant.Store.Migrations.Reopen.{apply_migrations_partial}
use ai_home_assistant.Ingest.Pipeline.{State, running, drop_hidden}
use ai_home_assistant.Web.Stream.{offer}
use ai_home_assistant.Archive.{new_writer, path_for_day}
use ai_home_assistant.Archive.View.{contents}
use ai_home_assistant.Adapter.Socket.{connection_lost, HaWsClient, Round, run}
use ai_home_assistant.Adapter.Socket.Deadline.{run_deadline}
use ai_home_assistant.Adapter.Socket.Reconnect.{doublings, run-lost}
use ai_home_assistant.Adapter.Registry.{Frame}
use ai_home_assistant.Service.{summary_of, Service, on_state_changed}
use ai_home_assistant.Service.Hidden.{on_state_changed_hidden}
use ai_home_assistant.Tests.Data.{quiet, event_at}

abbrev pub literally : String → Option String
literally p = if p == "[" then none else some p

abbrev pub equals : String → String → Bool
equals p s = p == s

abbrev pub guarded : State
guarded = record {
  pipeline = record {
    index = [];
    hide = λ k. if "person.guest" == k then true else false;
    batch_size = 100;
    batch_interval = 1000;
    buffer = [];
    first_added = none;
    stopped = false;
    flush_task = running;
  };
  world = quiet;
}

abbrev pub at_home : Service
at_home = record {
  ingest = guarded;
  jsonl = new_writer true;
  queues = (1, []) ∷ [];
  health = record {
    start_ms = 0;
    ws_connected = true;
    event_log_recent = [];
    hidden_total = 0;
    db_size_bytes = 0;
    topology_snapshot_id = none;
    wal_recovery_count = 0;
    privacy_compile_fail = 0;
    config_reload_fail = 0;
    ha_version = none;
  };
  hide_pattern = "person.guest" ∷ [];
}

drop_succeeds : (drop_hidden 10 guarded).0 ≡ ok tt
unfolding drop_hidden increment_privacy_drop
drop_succeeds = refl

on_state_changed_hidden_example :
    let a =
      (on_state_changed
        (λ _. "2026-01-01")
        (λ e. e.entity_id)
        (event_at 10 "person.guest")
        10
        1
        at_home).1 in
    (a.ingest.buffer ≡ [])
    × (a.health.hidden_total ≡ 0)
    × (contents "2026-01-01.jsonl.gz" a.jsonl ≡ "person.guest\n")
    × (get 1 a.queues ≡ some (offer 500 (summary_of (event_at 10 "person.guest")) []))
unfolding get path_for_day
on_state_changed_hidden_example =
    on_state_changed_hidden (λ _. "2026-01-01") (λ e. e.entity_id) (event_at 10 "person.guest") 10 1
      at_home 1 [] refl drop_succeeds tt refl

abbrev dropped : Round
dropped = record {
  elapsed = 0;
  connection = record {
    hello = some (some "auth_required");
    ack = some (some "auth_ok");
    messages = (some "event", "1") ∷ [];
    ending = connection_lost;
  };
  stop_in_wait = false;
}

abbrev new_client : HaWsClient
new_client = record {
  next_id = 1;
  disconnect_count = 0;
  last_error_kind = none;
  connected = false;
  stopping = false;
  sent = [];
  handled = [];
}

run-lost_example :
    let (c, waits) = run none 1000 60000 (dropped ∷ dropped ∷ []) new_client in
    (waits ≡ doublings 60000 1000 0 2) × (c.disconnect_count ≡ 2)
run-lost_example =
    run-lost 1000 60000 (dropped ∷ dropped ∷ []) new_client (omega arith)
      ((refl, refl, refl, refl), ((refl, refl, refl, refl), tt)) refl

-- A table is a number here: a statement adds to it, and one fails.
abbrev adds : ℕ → ℕ → Option ℕ
adds n t = some (t + n)

abbrev fails : ℕ → Option ℕ
fails t = none

abbrev first_migration : Migration ℕ
first_migration = record { version = 1; script = adds 3 ∷ adds 4 ∷ [] }

abbrev broken_migration : Migration ℕ
broken_migration = record { version = 2; script = adds 5 ∷ fails ∷ adds 6 ∷ [] }

abbrev version_one : Schema ℕ
version_one = record { tables = 7; version = 1 }

runs_first :
    apply_migrations (first_migration ∷ []) (record { tables = 0; version = 0 })
    ≡ migrated version_one
unfolding apply_migrations executescript
runs_first = refl

adds_five : executescript (adds 5 ∷ []) 7 ≡ finished 12
unfolding executescript
adds_five = refl

apply_migrations_partial_example :
    apply_migrations (broken_migration ∷ []) version_one
    ≡ migration_error (record { tables = 12; version = 1 })
apply_migrations_partial_example =
    apply_migrations_partial broken_migration [] version_one (adds 5 ∷ []) (adds 6 ∷ []) fails 12
      (omega arith) refl adds_five refl

abbrev pub accepts : Frame
accepts = record { id = none; type = some "auth_ok"; success = false; result = none }

-- An event that comes before the second list.
abbrev noise : Frame
noise = record { id = some 1; type = some "event"; success = false; result = none }

abbrev round_at : ℕ → Round
round_at t = record dropped { elapsed = t }

run_deadline_example :
    length
        (run (some 2000) 1000 60000 (round_at 0 ∷ round_at 1500 ∷ round_at 4000 ∷ []) new_client).1
      * 1000
    ≤ 2000 + 1000
run_deadline_example =
    run_deadline 2000 1000 60000 (round_at 0 ∷ round_at 1500 ∷ round_at 4000 ∷ []) new_client
      (omega arith, (omega arith, (omega arith, tt)))
