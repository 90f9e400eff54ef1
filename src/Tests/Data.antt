-- ===== src/Tests/Data.antt =====
-- A small home: a registry with a kitchen, its light, a stray sensor and a disabled switch.
use Prim.Native.String.{◌++◌}
use ai_home_assistant.Prelude.{ℕ, String, none, some, List, [], ◌∷◌}
use ai_home_assistant.Store.Rows.{AreaRow, EntityRow, EventRow}
use ai_home_assistant.Store.Exec.{World, empty_db}
use ai_home_assistant.Topology.Payload.{Item, TopologyPayload}
use ai_home_assistant.Topology.Snapshots.{Codec}
use ai_home_assistant.Ingest.Batch.{HaEvent}

abbrev pub kitchen : Item
kitchen = ("area_id", some "kitchen") ∷ ("name", some "Kitchen") ∷ []

abbrev pub ceiling : Item
ceiling = ("device_id", some "d1") ∷ ("area_id", some "kitchen") ∷ []

abbrev pub light : Item
light = ("entity_id", some "light.k") ∷ ("device_id", some "d1") ∷ []

abbrev pub stray : Item
stray = ("entity_id", some "sensor.x") ∷ []

abbrev pub old_switch : Item
old_switch = ("entity_id", some "switch.old") ∷ ("disabled_by", some "user") ∷ []

abbrev pub home : TopologyPayload
home = record {
  areas = kitchen ∷ [];
  devices = ceiling ∷ [];
  entities = light ∷ stray ∷ old_switch ∷ [];
}

abbrev pub empty_home : TopologyPayload
empty_home = record { areas = []; devices = []; entities = [] }

-- A device whose id goes by another key.
abbrev pub odd_home : TopologyPayload
odd_home = record home { devices = (("id", some "d1") ∷ []) ∷ [] }

-- A writer that tells payloads apart by their entities.
abbrev digest : List Item → String
digest [] = "."
digest (_ ∷ es) = "e" ++ digest es

abbrev pub toy_codec : Codec
toy_codec = record {
  dumps = λ p. digest p.entities;
  loads = λ _. record { areas = none; devices = none; entities = none };
  sha256 = λ s. s;
}

abbrev pub quiet : World
quiet = record { db = empty_db; faults = [] }

abbrev pub light_row : EntityRow
light_row = record {
  entity_id = "light.k";
  friendly_name = none;
  domain = "light";
  device_class = none;
  device_id = some "d1";
  area_id = some "kitchen";
  disabled = 0;
  snapshot_id = 1;
  first_seen_at = 100;
  last_seen_at = 100;
  event_count_24h = 3;
  total_event_count = 7;
}

abbrev pub seen : World
seen = record quiet { db = record empty_db { entities = ("light.k", light_row) ∷ [] } }

abbrev pub unnamed_area : AreaRow
unnamed_area = record {
  area_id = "attic";
  name = none;
  floor_id = none;
  icon = none;
  aliases = "[]";
  snapshot_id = 1;
  first_seen_at = 100;
  last_seen_at = 100;
}

abbrev pub event_at : ℕ → String → HaEvent
event_at ts entity_id = record {
  ts_ms = ts;
  entity_id = entity_id;
  event_type = "state_changed";
  old_state = none;
  new_state = some "on";
  context_user_id = none;
  context_parent_id = none;
}

abbrev pub row_at : ℕ → EventRow
row_at ts = record {
  ts = ts;
  received_at = ts;
  entity_id = "light.k";
  event_type = "state_changed";
  old_state = none;
  new_state = some "on";
  context_user_id = none;
  context_parent_id = none;
  area_id = some "kitchen";
  device_id = some "d1";
  device_class = none;
  snapshot_id = 1;
}
