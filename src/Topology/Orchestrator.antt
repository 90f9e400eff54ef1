-- ===== src/Topology/Orchestrator.antt =====
-- `TopologyOrchestrator` of src/ai_ha/topology/orchestrator.py.
pub mod Refresh
pub mod Partial
pub mod Untouched
pub mod Quiet
use Prim.Native.Char.{code}
use Prim.Native.String
use ai_home_assistant.Prelude.{
  ℕ, String, Option, none, some, Bool, true, false, List, [], ◌∷◌, if◌then◌else◌, truthy, or_else,
  string_eq, option_eq, nat_beq,
}
use ai_home_assistant.Prelude.Dict.{get, put}
use ai_home_assistant.Store.Rows.{AreaRow, DeviceRow, EntityRow}
use ai_home_assistant.Store.Exec.{
  Result, ok, raise, key_error, Exec, World, pure, continue, ◌>>=◌, ◌>>◌,
}
use ai_home_assistant.Store.Dao.{upsert_areas, upsert_devices, upsert_entities}
use ai_home_assistant.Topology.Payload.{Item, TopologyPayload, Areas, field, has_key, area_of}
use ai_home_assistant.Topology.EntityIndex.{EntityIndex, build}
use ai_home_assistant.Topology.Snapshots.{Codec, insert_if_changed}

-- `a.get("name", a["area_id"])`: a null that is there stays null.
abbrev name_or : Option (Option String) → String → Option String
name_or none area_id = some area_id
name_or (some v) area_id = v

-- `str(a.get("aliases", "[]"))`
abbrev printed : Option (Option String) → String
printed none = "[]"
printed (some none) = "None"
printed (some (some s)) = s

module _ (sid ts_ms : ℕ) where
  unfoldable pub area_row : Item → String → AreaRow
  area_row a area_id = record {
    area_id = area_id;
    name = name_or (get "name" a) area_id;
    floor_id = field "floor_id" a;
    icon = field "icon" a;
    aliases = printed (get "aliases" a);
    snapshot_id = sid;
    first_seen_at = ts_ms;
    last_seen_at = ts_ms;
  }

  -- ... for a in areas if a.get("area_id")
  abbrev add_area : Item → Option String → List AreaRow → List AreaRow
  add_area a none rest = rest
  add_area a (some k) rest = if truthy (some k) then area_row a k ∷ rest else rest

  unfoldable pub area_rows : List Item → List AreaRow
  unfolding area_row
  area_rows [] = []
  area_rows (a ∷ rest) = add_area a (field "area_id" a) (area_rows rest)

  unfoldable pub device_row : Item → String → DeviceRow
  device_row d device_id = record {
    device_id = device_id;
    name = field "name" d;
    manufacturer = field "manufacturer" d;
    model = field "model" d;
    area_id = field "area_id" d;
    sw_version = field "sw_version" d;
    snapshot_id = sid;
    first_seen_at = ts_ms;
    last_seen_at = ts_ms;
  }

  abbrev add_device : Item → Option String → List DeviceRow → List DeviceRow
  add_device d none rest = rest
  add_device d (some k) rest = if truthy (some k) then device_row d k ∷ rest else rest

  unfoldable pub device_rows : List Item → List DeviceRow
  unfolding device_row
  device_rows [] = []
  device_rows (d ∷ rest) = add_device d (field "device_id" d) (device_rows rest)

-- `{d["device_id"]: d.get("area_id") for d in devices}`, which raises at a device with no such key.
unfoldable pub require_areas : List Item → Areas → Result Areas
unfolding has_key field
require_areas [] m = ok m
require_areas (d ∷ ds) m =
    let rest = require_areas ds (put (field "device_id" d) (field "area_id" d) m) in
    if has_key "device_id" d then rest else raise key_error

-- `entity_id.split(".", 1)[0]`
unfoldable pub domain_of : String → String
domain_of String.[] = ""
domain_of (String.◌∷◌ c s) =
    let rest = domain_of s in if nat_beq (code c) b'.' then "" else String.◌∷◌ c rest

module _ (areas : Areas) (sid ts_ms : ℕ) where
  unfoldable pub entity_row : Item → String → EntityRow
  unfolding domain_of
  entity_row e entity_id = record {
    entity_id = entity_id;
    friendly_name = field "name" e;
    domain = domain_of entity_id;
    device_class = field "device_class" e;
    device_id = field "device_id" e;
    area_id = or_else (field "area_id" e) (area_of (field "device_id" e) areas);
    disabled = if truthy (field "disabled_by" e) then 1 else 0;
    snapshot_id = sid;
    first_seen_at = ts_ms;
    last_seen_at = ts_ms;
    event_count_24h = 0;
    total_event_count = 0;
  }

  abbrev add_entity : Item → Option String → List EntityRow → List EntityRow
  add_entity e none rest = rest
  add_entity e (some k) rest = if truthy (some k) then entity_row e k ∷ rest else rest

  unfoldable pub entity_rows : List Item → List EntityRow
  unfolding entity_row
  entity_rows [] = []
  entity_rows (e ∷ rest) = add_entity e (field "entity_id" e) (entity_rows rest)

-- The end of `_upsert_all`, from the table of the devices' areas on.
unfoldable pub upsert_with : Result Areas → TopologyPayload → ℕ → ℕ → Exec (Unit {0})
unfolding entity_rows
upsert_with (raise x) payload sid ts_ms w = (raise x, w)
upsert_with (ok areas) payload sid ts_ms w =
    upsert_entities (entity_rows areas sid ts_ms payload.entities) w

unfoldable pub upsert_all : TopologyPayload → ℕ → ℕ → Exec (Unit {0})
unfolding upsert_with area_rows device_rows require_areas
upsert_all payload sid ts_ms = do
  upsert_areas (area_rows sid ts_ms payload.areas)
  upsert_devices (device_rows sid ts_ms payload.devices)
  upsert_with (require_areas payload.devices []) payload sid ts_ms

-- `if is_new: await self._upsert_all(...)`
unfoldable pub upsert_if_new : TopologyPayload → ℕ → ℕ × Bool → Exec (ℕ × Bool)
unfolding upsert_all
upsert_if_new payload ts_ms (sid, true) = do upsert_all payload sid ts_ms; pure (sid, true)
upsert_if_new payload ts_ms (sid, false) = pure (sid, false)

-- The index is rebuilt last: a raise before that leaves the old one.
abbrev pub rebuilt : TopologyPayload → EntityIndex → Result (ℕ × Bool) → EntityIndex
rebuilt payload idx (ok (sid, is_new)) = build payload sid
rebuilt payload idx (raise x) = idx

unfoldable pub apply :
    Codec → TopologyPayload → ℕ → EntityIndex → World → Result (ℕ × Bool) × World × EntityIndex
unfolding upsert_if_new
apply codec payload ts_ms idx w =
    let (r, w') = (insert_if_changed codec payload ts_ms none >>= upsert_if_new payload ts_ms) w in
    (r, w', rebuilt payload idx r)
