-- ===== src/Topology/Orchestrator/Refresh.antt =====
-- After a refresh that stored a new snapshot, the entity table and the entity index agree.
use ai_home_assistant.Prelude.{
  ℕ, String, none, some, Bool, true, false, List, [], ◌∷◌, ◌≡◌, refl, arith, ◌∙◌, ap, sym,
  string_eq, option_eq, ◌==◌, inl, inr, Option-cases, Bool-cases, map_option, eq_of_beq,
}
use ai_home_assistant.Prelude.Dict.{get, put}
use ai_home_assistant.Store.Rows.{EntityRow}
use ai_home_assistant.Store.Exec.{Result, ok, raise, World, pure, ◌>>◌, >>=-eq-ok}
use ai_home_assistant.Store.Dao.{upsert_areas, upsert_devices}
use ai_home_assistant.Store.Upsert.{last_row, upsert_entities-SameDescription}
use ai_home_assistant.Topology.Payload.{
  Item, TopologyPayload, Areas, field, has_key, collect_areas, device_to_area,
}
use ai_home_assistant.Topology.EntityIndex.{EntityRef, EntityIndex, lookup, ref_of, build}
use ai_home_assistant.Topology.EntityIndex.Lookup.{last_item, lookup-build}
use ai_home_assistant.Topology.Snapshots.{Codec, insert_if_changed}
use ai_home_assistant.Topology.Orchestrator.{
  area_rows, device_rows, require_areas, entity_row, entity_rows, upsert_with, upsert_all,
  upsert_if_new, apply,
}

-- With every device's id there, the two ways to collect the devices' areas agree.
require-collect :
    (ds : List Item) (m areas : Areas) → require_areas ds m ≡ ok areas → collect_areas ds m ≡ areas
unfolding require_areas collect_areas
require-collect [] m areas h = ground arith
require-collect (d ∷ ds) m areas h = elim (Bool-cases (has_key "device_id" d)) [
  | inl there ↦
      rw there
        (require-collect ds (put (field "device_id" d) (field "area_id" d) m) areas (rw there at h))
  | inr absent ↦ absurd (ground arith)
]

last-entity_rows :
    (areas : Areas) (sid ts : ℕ) (es : List Item) (k : String)
    → last_row k (entity_rows areas sid ts es)
      ≡ map_option (λ e. entity_row areas sid ts e k) (last_item k es)
unfolding last_row last_item entity_rows
last-entity_rows areas sid ts [] k = refl
last-entity_rows areas sid ts (e ∷ es) k = elim (Option-cases (field "entity_id" e)) [
  | inl no_id ↦ rw no_id (ground (arith, last-entity_rows areas sid ts es k))
  | inr (i, id) ↦ rw id (elim (Bool-cases (i == k)) [
    | inr other ↦ ground (arith, last-entity_rows areas sid ts es k)
    | inl same ↦
        let path : i ≡ k = eq_of_beq i k same in
        rw path (ground (arith, last-entity_rows areas sid ts es k))
  ])
]

-- What a row of the entity table and a reference of the index say alike.
pub record Agrees (ref : EntityRef) (row : EntityRow) : Type 0 where
  pub device_id : row.device_id ≡ ref.device_id
  pub area_id : row.area_id ≡ ref.area_id
  pub device_class : row.device_class ≡ ref.device_class
  pub snapshot_id : row.snapshot_id ≡ ref.snapshot_id

module _ (p : TopologyPayload) (sid ts : ℕ) (k : String) where
  abbrev Stored : EntityRef → World → Type 0
  Stored ref w = (row : EntityRow) × (get k w.db.entities ≡ some row) × Agrees ref row

  upsert_with-Stored :
      (r : Result Areas) (w : World) (ref : EntityRef)
      → r ≡ require_areas p.devices []
      → (upsert_with r p sid ts w).0 ≡ ok tt
      → lookup k (build p sid) ≡ some ref
      → Stored ref (upsert_with r p sid ts w).1
  unfolding upsert_with
  upsert_with-Stored (raise x) w ref made h found = cc
  upsert_with-Stored (ok areas) w ref made h found = elim (Option-cases (last_item k p.entities)) [
    | inl missing ↦ absurd (ground (arith, lookup-build p sid k))
    | inr (e, last) ↦
        let same : device_to_area p.devices ≡ areas =
          require-collect p.devices [] areas (sym made) in
        let is_ref : ref_of areas sid e ≡ ref =
          rw (← same) (ground (arith, lookup-build p sid k)) in
        let rows = entity_rows areas sid ts p.entities in
        let (row, stored, d) =
          upsert_entities-SameDescription rows w k (entity_row areas sid ts e k) h (
            last-entity_rows areas sid ts p.entities k
            ∙ ap (map_option (λ e. entity_row areas sid ts e k)) last) in
        (
          row,
          stored,
          rw (← is_ref) (
              unfold ref_of entity_row in
              record {
                device_id = d.device_id;
                area_id = d.area_id;
                device_class = d.device_class;
                snapshot_id = d.snapshot_id;
              }),
        )
  ]

  upsert_all-Stored :
      (w : World) (ref : EntityRef)
      → (upsert_all p sid ts w).0 ≡ ok tt
      → lookup k (build p sid) ≡ some ref
      → Stored ref (upsert_all p sid ts w).1
  unfolding upsert_all
  upsert_all-Stored w ref h found =
      let w1 = (upsert_areas (area_rows sid ts p.areas) w).1 in
      let last = upsert_with (require_areas p.devices []) p sid ts in
      let devices = upsert_devices (device_rows sid ts p.devices) in
      let (_, _, e1) =
        >>=-eq-ok (upsert_areas (area_rows sid ts p.areas)) (λ _. devices >> last) w h in
      let (_, _, e2) = >>=-eq-ok devices (λ _. last) w1 (rw (← e1) h) in
      let done = e1 ∙ e2 in
      rw done (
        upsert_with-Stored (require_areas p.devices []) (devices w1).1 ref refl (rw (← done) h)
          found)

  upsert_if_new-Stored :
      (r : ℕ × Bool) (w : World) (ref : EntityRef)
      → (upsert_if_new p ts r w).0 ≡ ok (sid, true)
      → lookup k (build p sid) ≡ some ref
      → Stored ref (upsert_if_new p ts r w).1
  unfolding upsert_if_new
  upsert_if_new-Stored (sid', false) w ref h found = cc
  upsert_if_new-Stored (sid', true) w ref h found =
      let (_, returned, e) = >>=-eq-ok (upsert_all p sid' ts) (λ _. pure (sid', true)) w h in
      let same : sid' ≡ sid = ground (arith, e) in
      rw (e, same) (upsert_all-Stored w ref (rw (← same) returned) found)

-- After a refresh that stored a new snapshot, the table has a row for every entity that the new
-- index knows, and the row and the index agree on the device, the area, the class and the snapshot.
pub apply-Agrees :
    (codec : Codec) (p : TopologyPayload) (ts : ℕ) (idx : EntityIndex) (w : World) (sid : ℕ)
    (k : String) (ref : EntityRef)
    → (apply codec p ts idx w).0 ≡ ok (sid, true)
    → lookup k (apply codec p ts idx w).2 ≡ some ref
    → (row : EntityRow) × (get k (apply codec p ts idx w).1.db.entities ≡ some row) × Agrees ref row
unfolding apply
apply-Agrees codec p ts idx w sid k ref h found =
    let (r, _, e) = >>=-eq-ok (insert_if_changed codec p ts none) (upsert_if_new p ts) w h in
    let w1 = (insert_if_changed codec p ts none w).1 in
    rw e (upsert_if_new-Stored p sid ts k r w1 ref (rw (← e) h) (rw h at found))
