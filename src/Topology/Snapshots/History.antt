-- ===== src/Topology/Snapshots/History.antt =====
-- The history of snapshots: append-only, numbered without gaps, one row for each hash.
use ai_home_assistant.Prelude.{
  ℕ, ◌+◌, ◌≤◌, String, Option, none, some, Bool, true, false, List, [], ◌∷◌, ◌++◌, ◌≡◌, refl, arith,
  inl, inr, ◌⊎◌, string_eq, beq_refl, Option-cases, length,
}
use ai_home_assistant.Store.Rows.{SnapshotRow}
use ai_home_assistant.Store.Exec.{Db, Result, ok, raise, sqlite_error, World, transaction}
use ai_home_assistant.Topology.Payload.{TopologyPayload}
use ai_home_assistant.Topology.Snapshots.{
  Codec, hash_hex, id_of_hash, add_snapshot, store_hash, insert_if_changed,
}

-- Newest first: the ids count down to 1, and no hash stands twice.
abbrev pub Counts : List SnapshotRow → Type 0
Counts [] = Unit
Counts (row ∷ rows) =
    (row.snapshot_id ≡ length rows + 1) × (id_of_hash row.payload_hash rows ≡ none) × Counts rows

abbrev pub IsHistory : Db → Type 0
IsHistory db = (db.snapshot_seq ≡ length db.snapshots) × Counts db.snapshots

module _ (codec : Codec) (p : TopologyPayload) (ts : ℕ) (diff : Option String) (w : World) where
  abbrev result : Result (ℕ × Bool) × World
  result = insert_if_changed codec p ts diff w

  abbrev added : Db
  added = add_snapshot ts (hash_hex codec p) (codec.dumps p) diff w.db

  abbrev row : SnapshotRow
  row = record {
    snapshot_id = w.db.snapshot_seq + 1;
    ts = ts;
    payload_hash = hash_hex codec p;
    payload = codec.dumps p;
    diff_summary = diff;
  }

  abbrev pub Known : Type 0
  Known =
      (sid : ℕ) × (id_of_hash (hash_hex codec p) w.db.snapshots ≡ some sid)
      × (result ≡ (ok (sid, false), w))

  abbrev Refused : Type 0
  Refused = (result.0 ≡ raise sqlite_error) × (result.1.db ≡ w.db)

  abbrev pub Added : Type 0
  Added =
      (id_of_hash (hash_hex codec p) w.db.snapshots ≡ none)
      × (result.0 ≡ ok (w.db.snapshot_seq + 1, true))
      × (result.1.db ≡ added)

  -- The three ends of a call.
  pub insert_if_changed_cases : Known ⊎ Refused ⊎ Added
  unfolding insert_if_changed hash_hex
  insert_if_changed_cases = elim (Option-cases (id_of_hash (hash_hex codec p) w.db.snapshots)) [
    | inr (sid, known) ↦ inl (sid, known, rw (known, store_hash))
    | inl new ↦ unfold transaction store_hash in ground arith
  ]

  -- A call keeps the history in order: ids 1, 2, 3 and so on with no gap, and no hash twice.
  pub insert_if_changed-IsHistory : IsHistory w.db → IsHistory result.1.db
  insert_if_changed-IsHistory h = elim insert_if_changed_cases [
    | inl (sid, known, e) ↦ rw e h
    | inr (inl (_, same)) ↦ rw same h
    | inr (inr (new, _, e)) ↦ rw e (unfold add_snapshot in (omega arith, (omega arith, new, h.1)))
  ]

  -- A call that returned an id returns it again for the same payload, as known, and writes nothing
  -- more.
  pub insert_if_changed_again :
      (ts' : ℕ) (diff' : Option String) (sid : ℕ) (new : Bool)
      → result.0 ≡ ok (sid, new)
      → insert_if_changed codec p ts' diff' result.1 ≡ (ok (sid, false), result.1)
  unfolding insert_if_changed store_hash hash_hex
  insert_if_changed_again ts' diff' sid new returned = elim insert_if_changed_cases [
    | inl (known_id, known, e) ↦ let same : known_id ≡ sid = cc in rw (e, known, same)
    | inr (inl (failed, _)) ↦ cc
    | inr (inr (_, made, e)) ↦
        let same : w.db.snapshot_seq + 1 ≡ sid = cc in
        rw e (unfold add_snapshot id_of_hash in rw (beq_refl, same))
  ]

  -- The history is append-only: what a call leaves ends with all the rows that were there, and at
  -- most one row is new.
  pub insert_if_changed-append :
      (rows : List SnapshotRow) × (result.1.db.snapshots ≡ rows ++ w.db.snapshots)
      × (length rows ≤ 1)
  insert_if_changed-append = elim insert_if_changed_cases [
    | inl (sid, known, e) ↦ ([], rw e, omega arith)
    | inr (inl (_, same)) ↦ ([], rw same, omega arith)
    | inr (inr (_, _, e)) ↦ (row ∷ [], rw e (unfold add_snapshot in refl), omega arith)
  ]
