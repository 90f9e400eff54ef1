-- ===== src/Service/Messages.antt =====
-- `on_ws_event` and `initial_sync` of src/ai_ha/main.py. A message holds the keys that the code reads;
-- an empty dict, which is false in Python, is a missing one here. What the server answers to a fetch
-- of the registries stands in a list of frames.
pub mod Refresh
pub mod Sync
use Prim.Native.String.{◌++◌}
use ai_home_assistant.Prelude.{
  ℕ, String, Option, none, some, Bool, true, false, List, ◌==◌, string_eq, if◌then◌else◌,
  map_option,
}
use ai_home_assistant.Prelude.Texts.{after_prefix, ends_with}
use ai_home_assistant.Store.Exec.{Result, ok, raise, World}
use ai_home_assistant.Topology.Payload.{TopologyPayload}
use ai_home_assistant.Topology.EntityIndex.{EntityIndex}
use ai_home_assistant.Topology.Snapshots.{Codec}
use ai_home_assistant.Topology.Orchestrator.{apply}
use ai_home_assistant.Ingest.Batch.{HaEvent}
use ai_home_assistant.Health.{set_topology_snapshot_id, set_ws_connected}
use ai_home_assistant.Adapter.Registry.{
  Frame, Fetch, fetched, connection_closed, auth_failed, request_failed, fetch_once,
}
use ai_home_assistant.Service.{Service, on_state_changed}

-- `_ws_url`
abbrev other_scheme : String → Option String → String
other_scheme url none = url ++ "/api/websocket"
other_scheme url (some rest) = "ws://" ++ rest ++ "/api/websocket"

abbrev secure_scheme : String → Option String → String
secure_scheme url none = other_scheme url (after_prefix "http://" url)
secure_scheme url (some rest) = "wss://" ++ rest ++ "/api/websocket"

unfoldable pub ws_url : String → String
ws_url http_url = secure_scheme http_url (after_prefix "https://" http_url)

pub record EventContext : Type 0 where
  pub user_id : Option String
  pub parent_id : Option String

-- `state` is the text that `str` makes of the value, if the key is there.
pub record StateObject : Type 0 where
  pub state : Option String
  pub context : Option EventContext

pub record ChangeData : Type 0 where
  pub entity_id : Option String
  pub new_state : Option StateObject
  pub old_state : Option StateObject

pub record WsEvent : Type 0 where
  pub event_type : Option String
  pub change : Option ChangeData

abbrev pub or_text : String → Option String → String
or_text d none = d
or_text d (some s) = s

abbrev context_of : Option StateObject → Option EventContext
context_of none = none
context_of (some o) = o.context

abbrev part : (EventContext → Option String) → Option EventContext → Option String
part f none = none
part f (some c) = f c

-- `str(None)` is "None".
unfoldable pub ha_event : ℕ → ChangeData → HaEvent
ha_event now d = record {
  ts_ms = now;
  entity_id = or_text "" d.entity_id;
  event_type = "state_changed";
  old_state = map_option (λ o. or_text "None" o.state) d.old_state;
  new_state = map_option (λ o. or_text "None" o.state) d.new_state;
  context_user_id = part (λ c. c.user_id) (context_of d.new_state);
  context_parent_id = part (λ c. c.parent_id) (context_of d.new_state);
}

abbrev no_data : ChangeData
no_data = record { entity_id = none; new_state = none; old_state = none }

abbrev pub data_of : Option ChangeData → ChangeData
data_of none = no_data
data_of (some d) = d

abbrev no_event : WsEvent
no_event = record { event_type = none; change = none }

abbrev pub event_in : Option WsEvent → WsEvent
event_in none = no_event
event_in (some ev) = ev

abbrev pub synced : Option (Result (Unit {0})) → Service → Service
synced (some (ok _)) a = record a { health = set_ws_connected true a.health }
synced _ a = a

module _ (codec : Codec) where
  abbrev pub with_topology : World → EntityIndex → Service → Service
  with_topology w index a = record a {
    ingest = record { pipeline = record a.ingest.pipeline { index = index }; world = w };
  }

  -- What follows `orchestrator.apply`: an error is logged, and what was stored stays.
  abbrev pub after_apply :
      Result (ℕ × Bool) × World × EntityIndex → Service → Result (Unit {0}) × Service
  after_apply (ok (sid, _), w, index) a =
      (ok tt, record (with_topology w index a) { health = set_topology_snapshot_id sid a.health })
  after_apply (raise x, w, index) a = (raise x, with_topology w index a)

  abbrev pub after_fetch :
      Fetch TopologyPayload → ℕ → Service → Option (Result (Unit {0})) × Service
  after_fetch (fetched p) ts a =
      let (r, a') = after_apply (apply codec p ts a.ingest.pipeline.index a.ingest.world) a in
      (some r, a')
  after_fetch connection_closed ts a = (none, a)
  after_fetch auth_failed ts a = (none, a)
  after_fetch request_failed ts a = (none, a)

  -- The `try` blocks that fetch and apply the registries: `none` if the fetch raised.
  unfoldable pub refetch : List Frame → ℕ → Service → Option (Result (Unit {0})) × Service
  refetch frames ts a = after_fetch (fetch_once frames) ts a

  unfoldable pub initial_sync : List Frame → ℕ → Service → Service
  unfolding refetch
  initial_sync frames ts a = let (r, a') = refetch frames ts a in synced r a'

  module _ (day_of : ℕ → String) (line_of : HaEvent → String) where
    abbrev handle : WsEvent → List Frame → ℕ → ℕ → Service → Result (Unit {0}) × Service
    handle ev frames now mono a =
        let kind = or_text "" ev.event_type in
        if kind == "state_changed"
        then on_state_changed day_of line_of (ha_event now (data_of ev.change)) now mono a
        else if ends_with "_registry_updated" kind
        then (ok tt, (refetch frames now a).1)
        else (ok tt, a)

    -- `now` is the clock in milliseconds, `mono` the monotonic one.
    unfoldable pub on_ws_event :
        Option WsEvent → List Frame → ℕ → ℕ → Service → Result (Unit {0}) × Service
    unfolding refetch ha_event
    on_ws_event message frames now mono a = handle (event_in message) frames now mono a
