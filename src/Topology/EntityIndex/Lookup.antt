-- ===== src/Topology/EntityIndex/Lookup.antt =====
-- What a rebuilt index answers.
use ai_home_assistant.Prelude.{
  ℕ, String, Option, none, some, Bool, List, [], ◌∷◌, ◌≡◌, refl, arith, ◌∙◌, if◌then◌else◌, truthy,
  string_eq, option_eq, ◌==◌, map_option, ◌&&◌, inl, inr, Option-cases,
}
use ai_home_assistant.Prelude.Dict.{get, get-alter}
use ai_home_assistant.Topology.Payload.{Item, TopologyPayload, Areas, field, device_to_area}
use ai_home_assistant.Topology.EntityIndex.{
  EntityRef, EntityIndex, lookup, ref_of, add_ref, build_loop, build,
}

-- Does the item stand for this entity?
abbrev pub names : String → Item → Bool
names k e = truthy (field "entity_id" e) && field "entity_id" e == some k

-- The last item of an entity.
unfoldable pub last_item : String → List Item → Option Item
last_item k [] = none
last_item k (e ∷ es) = elim (last_item k es) [
  | some x ↦ some x
  | none ↦ if names k e then some e else none
]

abbrev found_or : Option EntityRef → Option EntityRef → Option EntityRef
found_or none y = y
found_or (some x) y = some x

module _ (areas : Areas) (sid : ℕ) where
  get-add_ref :
      (e : Item) (k : String) (out : EntityIndex)
      → get k (add_ref areas sid e (field "entity_id" e) out)
        ≡ (if names k e then some (ref_of areas sid e) else get k out)
  unfolding add_ref
  get-add_ref e k out = elim (Option-cases (field "entity_id" e)) [
    | inl no_id ↦ rw no_id
    | inr (i, id) ↦ rw id (ground (arith, get-alter i k (λ _. ref_of areas sid e) out))
  ]

  get-build_loop :
      (es : List Item) (k : String) (out : EntityIndex)
      → get k (build_loop areas sid es out)
        ≡ found_or (map_option (ref_of areas sid) (last_item k es)) (get k out)
  unfolding build_loop last_item
  get-build_loop [] k out = refl
  get-build_loop (e ∷ es) k out =
      get-build_loop es k (add_ref areas sid e (field "entity_id" e) out)
      ∙ ground (arith, get-add_ref e k out)

-- The index built from a payload answers with the last item of the entity: its device, its own area
-- or else its device's, its class, and the snapshot; and with nothing for any other id.
pub lookup-build :
    (p : TopologyPayload) (sid : ℕ) (k : String)
    → lookup k (build p sid)
      ≡ map_option (ref_of (device_to_area p.devices) sid) (last_item k p.entities)
unfolding lookup build get
lookup-build p sid k = get-build_loop (device_to_area p.devices) sid p.entities k [] ∙ ground arith
