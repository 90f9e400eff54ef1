-- ===== src/Topology/Orchestrator/Untouched.antt =====
-- What the upserts of src/ai_ha/topology/orchestrator.py leave as it is: each part of the database
-- that the tables of areas, devices and entities have no say in.
use ai_home_assistant.Prelude.{
  ℕ, String, Bool, true, false, List, [], ◌∷◌, ◌≡◌, refl, ◌∙◌, arith, inl, inr,
}
use ai_home_assistant.Prelude.Dict.{Dict}
use ai_home_assistant.Store.Rows.{AreaRow, DeviceRow, EntityRow}
use ai_home_assistant.Store.Exec.{
  Db, Result, ok, raise, Exec, World, transaction, ◌>>=◌, ◌>>◌, Result-cases, finish,
  run_transaction, pure,
}
use ai_home_assistant.Store.Dao.{
  upsert_areas, upsert_devices, upsert_entities, put_areas, commit_areas,
}
use ai_home_assistant.Store.Outcomes.{upsert_devices-Commits, upsert_entities-Commits}
use ai_home_assistant.Topology.Payload.{TopologyPayload, Areas}
use ai_home_assistant.Topology.Orchestrator.{
  upsert_with, upsert_all, upsert_if_new, require_areas, device_rows, area_rows,
}

module _ {X : Type 0} (view : Db → X) where
  -- A step that leaves the view as it is, whatever its outcome.
  abbrev pub Keeps : {A : Type 0} → Exec A → Type 0
  Keeps m = (w : World) → view (m w).1.db ≡ view w.db

  -- The view does not depend on the tables of the registries.
  pub record IsBlind : Type 0 where
    pub areas : (db : Db) (t : Dict String AreaRow) → view (record db { areas = t }) ≡ view db
    pub devices : (db : Db) (t : Dict String DeviceRow) → view (record db { devices = t }) ≡ view db
    pub entities :
        (db : Db) (t : Dict String EntityRow) → view (record db { entities = t }) ≡ view db

  pub Keeps->>= :
      {A B : Type 0} (m : Exec A) (f : A → Exec B)
      → Keeps m
      → ((a : A) → Keeps (f a))
      → Keeps (m >>= f)
  Keeps->>= m f h k w = elim (Result-cases (m w).0) [
    | inl (a, e) ↦ rw e (k a (m w).1 ∙ h w)
    | inr (x, e) ↦ rw e (h w)
  ]

  view-finish :
      {A : Type 0} (db : Db) (rest : List Bool) (r : Result (A × Db))
      → ((a : A) (db' : Db) → r ≡ ok (a, db') → view db' ≡ view db)
      → view (finish db rest r).1.db ≡ view db
  view-finish db rest (ok (a, db')) h = h a db' refl
  view-finish db rest (raise x) h = refl

  view-run_transaction :
      {A : Type 0} (body : Db → Result (A × Db)) (db : Db) (faults : List Bool)
      → ((a : A) (db' : Db) → body db ≡ ok (a, db') → view db' ≡ view db)
      → view (run_transaction body db faults).1.db ≡ view db
  view-run_transaction body db [] h = view-finish db [] (body db) h
  view-run_transaction body db (true ∷ rest) h = refl
  view-run_transaction body db (false ∷ rest) h = view-finish db rest (body db) h

  -- A transaction whose body leaves the view as it is.
  pub Keeps-transaction :
      {A : Type 0} (body : Db → Result (A × Db))
      → ((db : Db) (a : A) (db' : Db) → body db ≡ ok (a, db') → view db' ≡ view db)
      → Keeps (transaction body)
  unfolding transaction
  Keeps-transaction body h w = view-run_transaction body w.db w.faults (h w.db)

  module _ (blind : IsBlind) where
    Keeps-upsert_areas : (rs : List AreaRow) → Keeps (upsert_areas rs)
    unfolding upsert_areas
    Keeps-upsert_areas [] w = refl
    Keeps-upsert_areas (r ∷ rs) w =
        Keeps-transaction (λ db. commit_areas db (put_areas (r ∷ rs) db.areas))
          (λ db a db' h. committed db (put_areas (r ∷ rs) db.areas) a db' h) w
      where
        committed :
            (db : Db) (t : Result (Dict String AreaRow)) (a : Unit {0}) (db' : Db)
            → commit_areas db t ≡ ok (a, db')
            → view db' ≡ view db
        committed db (ok t) a db' h =
            let e : record db { areas = t } ≡ db' = ground arith in rw (← e) (blind.areas db t)
        committed db (raise x) a db' h = cc

    Keeps-upsert_devices : (rs : List DeviceRow) → Keeps (upsert_devices rs)
    Keeps-upsert_devices rs w = elim (upsert_devices-Commits rs w) [
      | inl (_, same) ↦ rw same refl
      | inr (_, done) ↦ rw done (blind.devices w.db _)
    ]

    Keeps-upsert_entities : (rs : List EntityRow) → Keeps (upsert_entities rs)
    Keeps-upsert_entities rs w = elim (upsert_entities-Commits rs w) [
      | inl (_, same) ↦ rw same refl
      | inr (_, done) ↦ rw done (blind.entities w.db _)
    ]

    Keeps-upsert_with :
        (r : Result Areas) (p : TopologyPayload) (sid ts : ℕ) → Keeps (upsert_with r p sid ts)
    unfolding upsert_with
    Keeps-upsert_with (raise x) p sid ts w = refl
    Keeps-upsert_with (ok areas) p sid ts w = Keeps-upsert_entities _ w

    Keeps-upsert_all : (p : TopologyPayload) (sid ts : ℕ) → Keeps (upsert_all p sid ts)
    unfolding upsert_all
    Keeps-upsert_all p sid ts =
        let entities = upsert_with (require_areas p.devices []) p sid ts in
        let devices = upsert_devices (device_rows sid ts p.devices) in
        Keeps->>= (upsert_areas (area_rows sid ts p.areas)) (λ _. devices >> entities)
          (Keeps-upsert_areas _)
          (λ _.
            Keeps->>= devices (λ _. entities) (Keeps-upsert_devices _)
              (λ _. Keeps-upsert_with (require_areas p.devices []) p sid ts))

    pub Keeps-upsert_if_new :
        (p : TopologyPayload) (ts : ℕ) (r : ℕ × Bool) → Keeps (upsert_if_new p ts r)
    unfolding upsert_if_new
    Keeps-upsert_if_new p ts (sid, false) w = refl
    Keeps-upsert_if_new p ts (sid, true) w =
        Keeps->>= (upsert_all p sid ts) (λ _. pure (sid, true)) (Keeps-upsert_all p sid ts)
          (λ _ w. refl) w
