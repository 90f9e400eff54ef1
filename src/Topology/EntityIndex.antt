-- ===== src/Topology/EntityIndex.antt =====
-- `EntityIndex` of src/ai_ha/topology/entity_index.py. A rebuild swaps the map as a whole, so the
-- index is its map.
pub mod Lookup
use ai_home_assistant.Prelude.{
  ℕ, String, Option, none, some, Bool, true, false, List, [], ◌∷◌, if◌then◌else◌, truthy, or_else,
  string_eq,
}
use ai_home_assistant.Prelude.Dict.{Dict, get, put}
use ai_home_assistant.Topology.Payload.{
  Item, TopologyPayload, Areas, field, area_of, device_to_area,
}

pub record EntityRef : Type 0 where
  pub device_id : Option String
  pub area_id : Option String
  pub device_class : Option String
  pub snapshot_id : ℕ

abbrev pub EntityIndex : Type 0
EntityIndex = Dict String EntityRef

unfoldable pub lookup : String → EntityIndex → Option EntityRef
lookup entity_id idx = get entity_id idx

-- The reference that the loop of `_build` makes for an item.
unfoldable pub ref_of : Areas → ℕ → Item → EntityRef
ref_of areas snapshot_id e = record {
  device_id = field "device_id" e;
  area_id = or_else (field "area_id" e) (area_of (field "device_id" e) areas);
  device_class = field "device_class" e;
  snapshot_id = snapshot_id;
}

-- One round of the loop: an item with no entity id, or an empty one, is passed over.
unfoldable pub add_ref : Areas → ℕ → Item → Option String → EntityIndex → EntityIndex
unfolding ref_of
add_ref areas snapshot_id e none out = out
add_ref areas snapshot_id e (some eid) out =
    if truthy (some eid) then put eid (ref_of areas snapshot_id e) out else out

unfoldable pub build_loop : Areas → ℕ → List Item → EntityIndex → EntityIndex
unfolding add_ref
build_loop areas snapshot_id [] out = out
build_loop areas snapshot_id (e ∷ es) out =
    build_loop areas snapshot_id es (add_ref areas snapshot_id e (field "entity_id" e) out)

-- `_build`, `build_from_payload`, `rebuild_from_payload`.
unfoldable pub build : TopologyPayload → ℕ → EntityIndex
unfolding build_loop
build payload snapshot_id =
    build_loop (device_to_area payload.devices) snapshot_id payload.entities []
