-- ===== src/Topology/Payload.antt =====
-- `TopologyPayload` of src/ai_ha/topology/snapshot_store.py, and what the other files of the folder
-- read of it. An item of a registry is a JSON object whose values are texts or null, as the row
-- types declare them; a list under `aliases` stands here as the text that `str` makes of it.
use ai_home_assistant.Prelude.{
  String, Option, none, some, Bool, true, false, List, [], ◌∷◌, if◌then◌else◌, string_eq, option_eq,
}
use ai_home_assistant.Prelude.Dict.{Dict, get, put}

abbrev pub Item : Type 0
Item = Dict String (Option String)

pub record TopologyPayload : Type 0 where
  pub areas : List Item
  pub devices : List Item
  pub entities : List Item

-- A value that may be null, or missing.
abbrev pub or_none : Option (Option String) → Option String
or_none none = none
or_none (some v) = v

-- `d.get(key)`
unfoldable pub field : String → Item → Option String
field key d = or_none (get key d)

-- `key in d`
abbrev is_there : Option (Option String) → Bool
is_there none = false
is_there (some v) = true

unfoldable pub has_key : String → Item → Bool
has_key key d = is_there (get key d)

abbrev pub Areas : Type 0
Areas = Dict (Option String) (Option String)

-- `device_to_area.get(device_id)`
unfoldable pub area_of : Option String → Areas → Option String
area_of device_id m = or_none (get device_id m)

-- {d["device_id"]: d.get("area_id") for d in devices if "device_id" in d}
unfoldable pub collect_areas : List Item → Areas → Areas
unfolding has_key field
collect_areas [] m = m
collect_areas (d ∷ ds) m =
    collect_areas ds
      (if has_key "device_id" d then put (field "device_id" d) (field "area_id" d) m else m)

abbrev pub device_to_area : List Item → Areas
device_to_area ds = collect_areas ds []
