-- ===== src/Topology/Orchestrator/Quiet.antt =====
-- The upserts of src/ai_ha/topology/orchestrator.py where no transaction fails: they leave it so.
use ai_home_assistant.Prelude.{
  ℕ, String, Option, none, some, Bool, true, false, List, [], ◌∷◌, ◌≡◌, refl, inl, inr,
}
use ai_home_assistant.Store.Rows.{AreaRow, DeviceRow, EntityRow}
use ai_home_assistant.Store.Exec.{
  Db, Result, ok, raise, Exec, World, transaction, ◌>>=◌, ◌>>◌, Result-cases, finish, pure,
}
use ai_home_assistant.Store.Dao.{
  upsert_areas, upsert_devices, upsert_entities, put_areas, commit_areas,
}
use ai_home_assistant.Topology.Payload.{TopologyPayload, Areas}
use ai_home_assistant.Topology.EntityIndex.{EntityIndex}
use ai_home_assistant.Topology.Snapshots.{Codec, insert_if_changed, store_hash}
use ai_home_assistant.Topology.Orchestrator.{
  upsert_with, upsert_all, upsert_if_new, require_areas, device_rows, area_rows, apply,
}

abbrev IsQuiet : {A : Type 0} → Exec A → Type 0
IsQuiet m = (w : World) → w.faults ≡ [] → (m w).1.faults ≡ []

IsQuiet->>= :
    {A B : Type 0} (m : Exec A) (f : A → Exec B)
    → IsQuiet m
    → ((a : A) → IsQuiet (f a))
    → IsQuiet (m >>= f)
IsQuiet->>= m f h k w e = elim (Result-cases (m w).0) [
  | inl (a, r) ↦ rw r (k a (m w).1 (h w e))
  | inr (x, r) ↦ rw r (h w e)
]

faults-finish :
    {A : Type 0} (db : Db) (rest : List Bool) (r : Result (A × Db))
    → (finish db rest r).1.faults ≡ rest
faults-finish db rest (ok (a, db')) = refl
faults-finish db rest (raise x) = refl

IsQuiet-transaction : {A : Type 0} (body : Db → Result (A × Db)) → IsQuiet (transaction body)
unfolding transaction
IsQuiet-transaction body w e = rw e (faults-finish w.db [] (body w.db))

IsQuiet-upsert_areas : (rs : List AreaRow) → IsQuiet (upsert_areas rs)
unfolding upsert_areas
IsQuiet-upsert_areas [] w e = e
IsQuiet-upsert_areas (r ∷ rs) w e =
    IsQuiet-transaction (λ db. commit_areas db (put_areas (r ∷ rs) db.areas)) w e

IsQuiet-upsert_devices : (rs : List DeviceRow) → IsQuiet (upsert_devices rs)
unfolding upsert_devices transaction
IsQuiet-upsert_devices [] w e = e
IsQuiet-upsert_devices (r ∷ rs) w e = rw e refl

IsQuiet-upsert_entities : (rs : List EntityRow) → IsQuiet (upsert_entities rs)
unfolding upsert_entities transaction
IsQuiet-upsert_entities [] w e = e
IsQuiet-upsert_entities (r ∷ rs) w e = rw e refl

IsQuiet-upsert_with :
    (r : Result Areas) (p : TopologyPayload) (sid ts : ℕ) → IsQuiet (upsert_with r p sid ts)
unfolding upsert_with
IsQuiet-upsert_with (raise x) p sid ts w e = e
IsQuiet-upsert_with (ok areas) p sid ts w e = IsQuiet-upsert_entities _ w e

IsQuiet-upsert_all : (p : TopologyPayload) (sid ts : ℕ) → IsQuiet (upsert_all p sid ts)
unfolding upsert_all
IsQuiet-upsert_all p sid ts =
    let entities = upsert_with (require_areas p.devices []) p sid ts in
    let devices = upsert_devices (device_rows sid ts p.devices) in
    IsQuiet->>= (upsert_areas (area_rows sid ts p.areas)) (λ _. devices >> entities)
      (IsQuiet-upsert_areas _)
      (λ _.
        IsQuiet->>= devices (λ _. entities) (IsQuiet-upsert_devices _)
          (λ _. IsQuiet-upsert_with (require_areas p.devices []) p sid ts))

IsQuiet-upsert_if_new :
    (p : TopologyPayload) (ts : ℕ) (r : ℕ × Bool) → IsQuiet (upsert_if_new p ts r)
unfolding upsert_if_new
IsQuiet-upsert_if_new p ts (sid, false) w e = e
IsQuiet-upsert_if_new p ts (sid, true) w e =
    IsQuiet->>= (upsert_all p sid ts) (λ _. pure (sid, true)) (IsQuiet-upsert_all p sid ts)
      (λ _ w e. e) w e

IsQuiet-store_hash :
    (o : Option ℕ) (ts : ℕ) (h body : String) (diff : Option String)
    → IsQuiet (store_hash o ts h body diff)
unfolding store_hash transaction
IsQuiet-store_hash (some sid) ts h body diff w e = e
IsQuiet-store_hash none ts h body diff w e = rw e refl

-- A refresh leaves no transaction to fail where there was none.
pub faults-apply :
    (codec : Codec) (p : TopologyPayload) (ts : ℕ) (idx : EntityIndex) (w : World)
    → w.faults ≡ []
    → (apply codec p ts idx w).1.faults ≡ []
unfolding apply insert_if_changed
faults-apply codec p ts idx w e =
    IsQuiet->>= (insert_if_changed codec p ts none) (upsert_if_new p ts)
      (λ w e. IsQuiet-store_hash _ ts _ _ none w e) (IsQuiet-upsert_if_new p ts) w e
