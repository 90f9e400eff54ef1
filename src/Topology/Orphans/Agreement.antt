-- ===== src/Topology/Orphans/Agreement.antt =====
-- The orphans of a payload against the areas that the entity index gives out.
use ai_home_assistant.Prelude.{
  ℕ, String, Option, none, some, Bool, true, false, List, [], ◌∷◌, ◌≡◌, refl, arith, All,
  if◌then◌else◌, truthy, string_eq, option_eq, ◌==◌, inl, inr, Option-cases, Bool-cases, eq_of_beq,
}
use ai_home_assistant.Prelude.Dict.{get, put, get-alter}
use ai_home_assistant.Topology.Payload.{
  Item, TopologyPayload, Areas, field, has_key, area_of, collect_areas, device_to_area,
}
use ai_home_assistant.Topology.EntityIndex.{EntityRef, EntityIndex, lookup, ref_of, build}
use ai_home_assistant.Topology.EntityIndex.Lookup.{last_item, lookup-build}
use ai_home_assistant.Topology.Orphans.{report, scan, find_orphans}

abbrev has_area : Option EntityRef → Bool
has_area none = false
has_area (some ref) = truthy ref.area_id

abbrev unplaced : EntityIndex → Option String → Bool
unplaced idx none = false
unplaced idx (some k) = if has_area (lookup k idx) then false else true

-- The enabled entities that an index gives no area.
pub orphans_of_index : EntityIndex → List Item → List String
orphans_of_index idx [] = []
orphans_of_index idx (e ∷ es) =
    let rest = orphans_of_index idx es in
    if truthy (field "disabled_by" e)
    then rest
    else if unplaced idx (field "entity_id" e)
    then report (field "entity_id" e) rest
    else rest

-- Every device that has an id has one that is not empty.
abbrev pub NamesDevices : List Item → Type 0
NamesDevices = All (λ d. has_key "device_id" d ≡ true → truthy (field "device_id" d) ≡ true)

-- No entity id stands in two items.
abbrev pub NamesOnce : List Item → List Item → Type 0
NamesOnce all = All (λ e.
    (k : String) → field "entity_id" e ≡ some k → truthy (some k) ≡ true → last_item k all ≡ some e)

put_falsy :
    (a v k : Option String) (m : Areas)
    → truthy a ≡ true
    → truthy k ≡ false
    → area_of k m ≡ none
    → area_of k (put a v m) ≡ none
unfolding area_of
put_falsy a v k m t f e = elim (Bool-cases (a == k)) [
  | inl same ↦ let path : a ≡ k = eq_of_beq a k same in cc
  | inr other ↦ rw (get-alter, other) e
]

collect_areas_falsy :
    (ds : List Item) (m : Areas) (k : Option String)
    → NamesDevices ds
    → truthy k ≡ false
    → area_of k m ≡ none
    → area_of k (collect_areas ds m) ≡ none
unfolding collect_areas
collect_areas_falsy [] m k h f e = e
collect_areas_falsy (d ∷ ds) m k h f e = elim (Bool-cases (has_key "device_id" d)) [
  | inr absent ↦ rw absent (collect_areas_falsy ds m k h.1 f e)
  | inl there ↦ rw there (
      collect_areas_falsy ds (put (field "device_id" d) (field "area_id" d) m) k h.1 f
        (put_falsy (field "device_id" d) (field "area_id" d) k m (h.0 there) f e))
]

module _ (p : TopologyPayload) (sid : ℕ) (devices_named : NamesDevices p.devices) where
  abbrev areas : Areas
  areas = device_to_area p.devices

  no_area : (k : Option String) → truthy k ≡ false → area_of k areas ≡ none
  no_area k f = collect_areas_falsy p.devices [] k devices_named f (unfold area_of get in refl)

  scan-orphans_of_index :
      (es : List Item) → NamesOnce p.entities es → scan areas es ≡ orphans_of_index (build p sid) es
  unfolding scan orphans_of_index report ref_of
  scan-orphans_of_index [] once = refl
  scan-orphans_of_index (e ∷ es) once = elim (Option-cases (field "entity_id" e)) [
    | inl no_id ↦ rw no_id (ground (arith, scan-orphans_of_index es once.1))
    | inr (k, id) ↦ rw id (
        ground (
          arith,
          scan-orphans_of_index es once.1,
          lookup-build p sid k,
          once.0 k id,
          no_area (field "device_id" e),
        ))
  ]

  -- When no entity id stands twice and no device's id is null or empty, the orphans are exactly the
  -- enabled entities to which the index built from the same payload gives no area, in their order.
  pub find_orphans_lem :
      NamesOnce p.entities p.entities → find_orphans p ≡ orphans_of_index (build p sid) p.entities
  unfolding find_orphans
  find_orphans_lem once = scan-orphans_of_index p.entities once
