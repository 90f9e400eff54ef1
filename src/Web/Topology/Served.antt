-- ===== src/Web/Topology/Served.antt =====
-- What a refresh of the registries makes the routes of src/ai_ha/web/routes/topology.py answer.
use ai_home_assistant.Prelude.{
  ℕ, ◌+◌, ◌<◌, String, none, some, Bool, true, false, List, [], ◌∷◌, ◌≡◌, ◌⊎◌, refl, ◌∙◌, ap, arith,
  inl, inr, ◌==◌, string_eq, nat_eq, Bool-cases, beq_refl, eq_of_beq, length, map_option,
}
use ai_home_assistant.Prelude.Int.{pos}
use ai_home_assistant.Store.Rows.{SnapshotRow}
use ai_home_assistant.Store.Exec.{Db, ok, World, Result-cases}
use ai_home_assistant.Topology.Payload.{TopologyPayload}
use ai_home_assistant.Topology.EntityIndex.{EntityIndex}
use ai_home_assistant.Topology.Snapshots.{
  Codec, hash_hex, id_of_hash, add_snapshot, insert_if_changed, get_current, row_to_snapshot,
}
use ai_home_assistant.Topology.Snapshots.History.{Counts, IsHistory, insert_if_changed_cases}
use ai_home_assistant.Topology.Orchestrator.{apply, upsert_all, upsert_if_new}
use ai_home_assistant.Topology.Orchestrator.Untouched.{IsBlind, Keeps-upsert_if_new}
use ai_home_assistant.Web.Topology.{
  SnapshotDetail, row_of_id, detail, snapshot_detail, current_topology,
}

abbrev snapshots_of : Db → List SnapshotRow
snapshots_of db = db.snapshots

snapshots_of-IsBlind : IsBlind snapshots_of
snapshots_of-IsBlind = record {
  areas = λ db t. refl;
  devices = λ db t. refl;
  entities = λ db t. refl;
}

upsert_if_new_returns :
    (p : TopologyPayload) (ts sid : ℕ) (new : Bool) (r : ℕ × Bool) (w : World)
    → (upsert_if_new p ts (sid, new) w).0 ≡ ok r
    → (sid, new) ≡ r
unfolding upsert_if_new
upsert_if_new_returns p ts sid false r w h = ground (arith, h)
upsert_if_new_returns p ts sid true r w h = elim (Result-cases (upsert_all p sid ts w).0) [
  | inl (_, e) ↦ let h' = rw e at h in ground (arith, h')
  | inr (x, e) ↦ let h' = rw e at h in cc
]

-- A refresh that returns has inserted, and nothing after that touches the history.
apply_inserts :
    (codec : Codec) (p : TopologyPayload) (ts : ℕ) (idx : EntityIndex) (w : World) (r : ℕ × Bool)
    → (apply codec p ts idx w).0 ≡ ok r
    → let i = insert_if_changed codec p ts none w in
      (i.0 ≡ ok r) × ((apply codec p ts idx w).1.db.snapshots ≡ i.1.db.snapshots)
unfolding apply
apply_inserts codec p ts idx w r h =
    let i = insert_if_changed codec p ts none w in
    elim (Result-cases i.0) [
      | inr (x, e) ↦ let h' = rw e at h in cc
      | inl ((sid, new), e) ↦
          let same = upsert_if_new_returns p ts sid new r i.1 (rw e at h) in
          (
            e ∙ ap ok same,
            rw e (Keeps-upsert_if_new snapshots_of snapshots_of-IsBlind p ts (sid, new) i.1),
          )
    ]

-- Ids count up, so that a row further down has a smaller one.
id_of_hash_below :
    (h : String) (rows : List SnapshotRow) (sid : ℕ)
    → Counts rows
    → id_of_hash h rows ≡ some sid
    → sid < length rows + 1
unfolding id_of_hash
id_of_hash_below h [] sid c e = cc
id_of_hash_below h (row ∷ rows) sid c e = elim (Bool-cases (row.payload_hash == h)) [
  | inl here ↦ let e' = rw here at e in ground (arith, e', c.0)
  | inr later ↦ let below = id_of_hash_below h rows sid c.2 (rw later at e) in omega (arith, below)
]

-- The row that an id belongs to is the one that holds the hash.
row_of_hash :
    (h : String) (rows : List SnapshotRow) (sid : ℕ)
    → Counts rows
    → id_of_hash h rows ≡ some sid
    → (row : SnapshotRow) × (row_of_id (pos sid) rows ≡ some row) × (row.payload_hash ≡ h)
unfolding id_of_hash row_of_id
row_of_hash h [] sid c e = cc
row_of_hash h (row ∷ rows) sid c e = elim (Bool-cases (row.payload_hash == h)) [
  | inl here ↦
      let same : sid ≡ row.snapshot_id = let e' = rw here at e in ground (arith, e') in
      (row, rw (same, beq_refl row.snapshot_id) refl, eq_of_beq row.payload_hash h here)
  | inr later ↦
      let deep = rw later at e in
      let below = id_of_hash_below h rows sid c.2 deep in
      let (found, is_row, has_hash) = row_of_hash h rows sid c.2 deep in
      (found, ground (arith, is_row, below, c.0), has_hash)
]

-- In a database whose history is in order, the id that a refresh returns is one that the detail view
-- has, with the hash of the payload; and if the refresh stored the payload as a new snapshot, the
-- view reads back the text that was written of it, and the current topology is that snapshot.
pub apply_served :
    (codec : Codec) (p : TopologyPayload) (ts : ℕ) (idx : EntityIndex) (w : World) (sid : ℕ)
    (new : Bool)
    → IsHistory w.db
    → (apply codec p ts idx w).0 ≡ ok (sid, new)
    → let db = (apply codec p ts idx w).1.db in
      (d : SnapshotDetail) × (snapshot_detail codec (pos sid) db ≡ some d)
      × (d.hash ≡ hash_hex codec p)
      × ((new ≡ false)
          ⊎ ((d.payload ≡ codec.loads (codec.dumps p))
              × (map_option (λ s. s.snapshot_id) (current_topology codec db) ≡ some sid)))
unfolding snapshot_detail current_topology get_current
apply_served codec p ts idx w sid new history h =
    let (inserted, kept) = apply_inserts codec p ts idx w (sid, new) h in
    elim (insert_if_changed_cases codec p ts none w) [
      | inl (known_id, known, e) ↦
          let same_id : known_id ≡ sid = cc in
          let same_new : new ≡ false = cc in
          let (row, is_row, has_hash) =
            row_of_hash (hash_hex codec p) w.db.snapshots known_id history.1 known in
          (detail codec row, rw (kept, e, ← same_id, is_row) refl, has_hash, inl same_new)
      | inr (inl (failed, _)) ↦ cc
      | inr (inr (fresh, made, e)) ↦
          let same_id : w.db.snapshot_seq + 1 ≡ sid = cc in
          (
            detail codec (stored w.db.snapshot_seq),
            rw (kept, e, ← same_id)
                (unfold add_snapshot row_of_id in rw (beq_refl (w.db.snapshot_seq + 1)) refl),
            refl,
            inr (
              refl,
              rw (kept, e, ← same_id) (unfold add_snapshot get_current row_to_snapshot in refl),
            ),
          )
    ]
  where
    stored : ℕ → SnapshotRow
    stored last = record {
      snapshot_id = last + 1;
      ts = ts;
      payload_hash = hash_hex codec p;
      payload = codec.dumps p;
      diff_summary = none;
    }
