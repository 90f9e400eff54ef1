-- ===== src/Topology/Orchestrator/Partial.antt =====
-- Refreshes of src/ai_ha/topology/orchestrator.py that leave the tables behind the registry.
use ai_home_assistant.Prelude.{
  ℕ, ◌+◌, none, some, true, false, not, any, Bool-cases, inl, inr, List, [], ◌∷◌, ◌≡◌, ◌≢◌, refl,
  arith, ◌∙◌, string_eq, beq_refl,
}
use ai_home_assistant.Store.Rows.{AreaRow, DeviceRow, SnapshotRow}
use ai_home_assistant.Store.Exec.{Db, ok, raise, key_error, World, transaction}
use ai_home_assistant.Store.Dao.{upsert_areas, upsert_devices, put_devices}
use ai_home_assistant.Store.Outcomes.{unnamed, put_areas_named}
use ai_home_assistant.Topology.Payload.{Item, Areas, TopologyPayload, has_key}
use ai_home_assistant.Topology.EntityIndex.{EntityIndex, build}
use ai_home_assistant.Topology.Snapshots.{
  Codec, hash_hex, id_of_hash, add_snapshot, store_hash, insert_if_changed, get_current,
  row_to_snapshot,
}
use ai_home_assistant.Topology.Orchestrator.{
  area_rows, device_rows, require_areas, upsert_with, upsert_all, upsert_if_new, apply,
}

-- No coming write transaction fails.
abbrev pub sound : Db → World
sound db = record { db = db; faults = [] }

upsert_areas-sound :
    (rs : List AreaRow) (db : Db)
    → unnamed rs ≡ false
    → (db' : Db) × (upsert_areas rs (sound db) ≡ (ok tt, sound db'))
      × (db'.entities ≡ db.entities)
      × (db'.snapshots ≡ db.snapshots)
unfolding upsert_areas transaction
upsert_areas-sound [] db h = (db, refl, refl, refl)
upsert_areas-sound (r ∷ rs) db h =
    let (t, e) = put_areas_named (r ∷ rs) db.areas h in (record db { areas = t }, rw e, refl, refl)

upsert_devices-sound :
    (rs : List DeviceRow) (db : Db)
    → (db' : Db) × (upsert_devices rs (sound db) ≡ (ok tt, sound db'))
      × (db'.entities ≡ db.entities)
      × (db'.snapshots ≡ db.snapshots)
unfolding upsert_devices transaction
upsert_devices-sound [] db = (db, refl, refl, refl)
upsert_devices-sound (r ∷ rs) db =
    (record db { devices = put_devices (r ∷ rs) db.devices }, refl, refl, refl)

-- A payload whose hash is known writes nothing.
pub apply_known :
    (codec : Codec) (p : TopologyPayload) (ts : ℕ) (idx : EntityIndex) (w : World) (sid : ℕ)
    → id_of_hash (hash_hex codec p) w.db.snapshots ≡ some sid
    → apply codec p ts idx w ≡ (ok (sid, false), w, build p sid)
unfolding apply insert_if_changed store_hash
apply_known codec p ts idx w sid known = rw known

module _ (codec : Codec) (p : TopologyPayload) (ts : ℕ) (idx : EntityIndex) where
  -- A payload that was stored earlier, and is not the newest snapshot, is taken as known: nothing
  -- is written, so the tables stay those of the newest snapshot, which is another payload's, while
  -- the index is rebuilt from this one.
  pub apply_older :
      (w : World) (sid : ℕ) (row : SnapshotRow) (rows : List SnapshotRow)
      → w.db.snapshots ≡ row ∷ rows
      → row.payload_hash ≢ hash_hex codec p
      → id_of_hash (hash_hex codec p) rows ≡ some sid
      → (apply codec p ts idx w ≡ (ok (sid, false), w, build p sid))
        × (get_current codec (apply codec p ts idx w).1.db ≡ some (row_to_snapshot codec row))
  unfolding get_current
  apply_older w sid row rows stored other known =
      let found : id_of_hash (hash_hex codec p) w.db.snapshots ≡ some sid = rw stored (
        unfold id_of_hash in
        ground (arith, string_eq.same_iff row.payload_hash (hash_hex codec p))) in
      let e = apply_known codec p ts idx w sid found in (e, rw (e, stored))

  -- The dict comprehension over the devices ends at one without the key.
  require_areas_missing :
      (ds : List Item) (m : Areas)
      → any (λ d. not (has_key "device_id" d)) ds ≡ true
      → require_areas ds m ≡ raise key_error
  unfolding require_areas
  require_areas_missing [] m h = cc
  require_areas_missing (d ∷ ds) m h = elim (Bool-cases (has_key "device_id" d)) [
    | inl there ↦ rw there (require_areas_missing ds _ (rw there at h))
    | inr missing ↦ rw missing refl
  ]

  -- What `_upsert_all` leaves when a device has no `device_id`: it raises before the entities.
  upsert_all_missing :
      (sid : ℕ) (db : Db)
      → unnamed (area_rows sid ts p.areas) ≡ false
      → require_areas p.devices [] ≡ raise key_error
      → (db' : Db) × (upsert_all p sid ts (sound db) ≡ (raise key_error, sound db'))
        × (db'.entities ≡ db.entities)
        × (db'.snapshots ≡ db.snapshots)
  unfolding upsert_all upsert_with
  upsert_all_missing sid db named missing =
      let (d1, e1, en1, sn1) = upsert_areas-sound (area_rows sid ts p.areas) db named in
      let (d2, e2, en2, sn2) = upsert_devices-sound (device_rows sid ts p.devices) d1 in
      (d2, rw (e1, e2, missing), en2 ∙ en1, sn2 ∙ sn1)

  inserted :
      (db : Db)
      → id_of_hash (hash_hex codec p) db.snapshots ≡ none
      → insert_if_changed codec p ts none (sound db) ≡ (
        ok (db.snapshot_seq + 1, true),
        sound (add_snapshot ts (hash_hex codec p) (codec.dumps p) none db),
      )
  unfolding insert_if_changed store_hash transaction
  inserted db new = rw new

  -- A device without the key `device_id`, wherever it stands among the devices, makes the refresh
  -- with a new payload raise a KeyError after the snapshot is stored and before any entity is; the
  -- next refresh with the same payload finds the snapshot and returns, and still no entity is
  -- stored. (No write fails, and the areas have names.)
  pub apply_missing_device_id :
      (db : Db) (ts' : ℕ)
      → id_of_hash (hash_hex codec p) db.snapshots ≡ none
      → unnamed (area_rows (db.snapshot_seq + 1) ts p.areas) ≡ false
      → any (λ d. not (has_key "device_id" d)) p.devices ≡ true
      → (db' : Db) × (apply codec p ts idx (sound db) ≡ (raise key_error, sound db', idx))
        × (apply codec p ts' idx (sound db')
            ≡ (ok (db.snapshot_seq + 1, false), sound db', build p (db.snapshot_seq + 1)))
        × (db'.entities ≡ db.entities)
  apply_missing_device_id db ts' new named missing =
      let sid = db.snapshot_seq + 1 in
      let d1 = add_snapshot ts (hash_hex codec p) (codec.dumps p) none db in
      let (d2, e2, en2, sn2) =
        upsert_all_missing sid d1 named (require_areas_missing p.devices [] missing) in
      let known : id_of_hash (hash_hex codec p) d2.snapshots ≡ some sid =
        rw sn2 (unfold add_snapshot id_of_hash in rw beq_refl) in
      (
        d2,
        unfold apply upsert_if_new in rw (inserted db new, e2),
        apply_known codec p ts' idx (sound d2) sid known,
        unfold add_snapshot in en2,
      )
