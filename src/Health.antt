-- ===== src/Health.antt =====
-- `HealthMetrics` of src/ai_ha/health/metrics.py. Times are milliseconds; a comparison with
-- `now_ms - 3_600_000` has the hour on the other side, since the source subtracts integers.
pub mod Window
use ai_home_assistant.Prelude.{
  ℕ, ◌+◌, ◌-◌, ◌/◌, String, Option, none, some, Bool, true, false, List, [], ◌∷◌, ◌++◌,
  if◌then◌else◌, ltb, length,
}

pub record HealthMetrics : Type 0 where
  pub start_ms : ℕ
  pub ws_connected : Bool
  pub event_log_recent : List ℕ
  pub hidden_total : ℕ
  pub db_size_bytes : ℕ
  pub topology_snapshot_id : Option ℕ
  pub wal_recovery_count : ℕ
  pub privacy_compile_fail : ℕ
  pub config_reload_fail : ℕ
  pub ha_version : Option String

unfoldable pub new_metrics : ℕ → HealthMetrics
new_metrics install_start_ms = record {
  start_ms = install_start_ms;
  ws_connected = false;
  event_log_recent = [];
  hidden_total = 0;
  db_size_bytes = 0;
  topology_snapshot_id = none;
  wal_recovery_count = 0;
  privacy_compile_fail = 0;
  config_reload_fail = 0;
  ha_version = none;
}

unfoldable pub inc_config_reload_fail : HealthMetrics → HealthMetrics
inc_config_reload_fail m = record m { config_reload_fail = m.config_reload_fail + 1 }

unfoldable pub set_ws_connected : Bool → HealthMetrics → HealthMetrics
set_ws_connected ok m = record m { ws_connected = ok }

unfoldable pub set_db_size : ℕ → HealthMetrics → HealthMetrics
set_db_size bytes m = record m { db_size_bytes = bytes }

unfoldable pub set_topology_snapshot_id : ℕ → HealthMetrics → HealthMetrics
set_topology_snapshot_id sid m = record m { topology_snapshot_id = some sid }

unfoldable pub set_ha_version : String → HealthMetrics → HealthMetrics
set_ha_version v m = record m { ha_version = some v }

unfoldable pub inc_wal_recovery : HealthMetrics → HealthMetrics
inc_wal_recovery m = record m { wal_recovery_count = m.wal_recovery_count + 1 }

unfoldable pub inc_privacy_compile_fail : HealthMetrics → HealthMetrics
inc_privacy_compile_fail m = record m { privacy_compile_fail = m.privacy_compile_fail + 1 }

unfoldable pub record_privacy_drop : HealthMetrics → HealthMetrics
record_privacy_drop m = record m { hidden_total = m.hidden_total + 1 }

-- `popleft` while the oldest time is more than an hour before `now`.
unfoldable pub expire : ℕ → List ℕ → List ℕ
expire now [] = []
expire now (t ∷ ts) = let rest = expire now ts in if ltb (t + 3600000) now then rest else t ∷ ts

unfoldable pub record_event : ℕ → HealthMetrics → HealthMetrics
unfolding expire
record_event ts_ms m = record m {
  event_log_recent = expire ts_ms (m.event_log_recent ++ ts_ms ∷ []);
}

-- One call of `record_event` for each time.
unfoldable pub record_events : List ℕ → HealthMetrics → HealthMetrics
unfolding record_event
record_events [] m = m
record_events (t ∷ ts) m = record_events ts (record_event t m)

pub record HealthReport (Size : Type 0) : Type 0 where
  pub status : String
  pub ws_connected : Bool
  pub events_per_hour : ℕ
  pub db_size_mb : Size
  pub uptime_seconds : ℕ
  pub hidden_event_count : ℕ
  pub current_topology_snapshot_id : Option ℕ
  pub ha_version_seen : Option String
  pub wal_recovery_count : ℕ
  pub privacy_regex_compile_fail_total : ℕ
  pub config_reload_fail_total : ℕ

-- `megabytes` is Python's `round(n / 1_000_000, 2)`. The snapshot also drops what has expired.
unfoldable pub snapshot :
    {Size : Type 0} → (ℕ → Size) → ℕ → HealthMetrics → HealthReport Size × HealthMetrics
unfolding expire
snapshot megabytes now m =
    let recent = expire now m.event_log_recent in
    (
      record {
        status = if m.ws_connected then "healthy" else "degraded";
        ws_connected = m.ws_connected;
        events_per_hour = length recent;
        db_size_mb = megabytes m.db_size_bytes;
        uptime_seconds = (now - m.start_ms) / 1000;
        hidden_event_count = m.hidden_total;
        current_topology_snapshot_id = m.topology_snapshot_id;
        ha_version_seen = m.ha_version;
        wal_recovery_count = m.wal_recovery_count;
        privacy_regex_compile_fail_total = m.privacy_compile_fail;
        config_reload_fail_total = m.config_reload_fail;
      },
      record m { event_log_recent = recent },
    )
