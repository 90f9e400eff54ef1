-- ===== src/Topology/Orphans.antt =====
-- src/ai_ha/topology/orphan_detector.py
pub mod Agreement
use ai_home_assistant.Prelude.{
  String, Option, none, some, Bool, true, false, List, [], ◌∷◌, if◌then◌else◌, truthy, ◌&&◌,
}
use ai_home_assistant.Topology.Payload.{
  Item, TopologyPayload, Areas, field, area_of, device_to_area,
}

-- `if eid := e.get("entity_id"): orphans.append(eid)`
unfoldable pub report : Option String → List String → List String
report none rest = rest
report (some eid) rest = if truthy (some eid) then eid ∷ rest else rest

-- The loop of `find_orphans`; each test that holds passes over the item.
unfoldable pub scan : Areas → List Item → List String
unfolding report
scan areas [] = []
scan areas (e ∷ es) =
    let rest = scan areas es in
    if truthy (field "disabled_by" e)
    then rest
    else if truthy (field "area_id" e)
    then rest
    else if truthy (field "device_id" e) && truthy (area_of (field "device_id" e) areas)
    then rest
    else report (field "entity_id" e) rest

unfoldable pub find_orphans : TopologyPayload → List String
unfolding scan
find_orphans payload = scan (device_to_area payload.devices) payload.entities
