-- ===== src/Store/Outcomes.antt =====
-- The outcomes of the write methods of src/ai_ha/store/dao.py: each one commits what it writes, or
-- fails and leaves the tables as they were.
use ai_home_assistant.Prelude.{
  ◌≢◌, ℕ, String, none, Bool, true, false, List, [], ◌∷◌, ◌≡◌, refl, arith, inl, inr, ◌⊎◌,
  string_eq, nat_eq, pair_eq, any, ◌==◌, option_eq,
}
use ai_home_assistant.Prelude.Dict.{Dict, alter, modify}
use ai_home_assistant.Store.Rows.{AreaRow, DeviceRow, EntityRow, EventRow}
use ai_home_assistant.Store.Exec.{
  Db, ok, raise, Error, sqlite_error, integrity_error, Exec, World, transaction,
}
use ai_home_assistant.Store.Dao.{
  merge_area, put_areas, upsert_areas, put_devices, upsert_devices, put_entities, upsert_entities,
  bump_row, bump_entity_event_counts, append_events, insert_events, added, increment_counter,
  increment_privacy_drop,
}

abbrev Fails : Exec (Unit {0}) → World → Error → Type 0
Fails m w x = ((m w).0 ≡ raise x) × ((m w).1.db ≡ w.db)

-- `db` is the database after a success.
abbrev pub Commits : Exec (Unit {0}) → World → Db → Type 0
Commits m w db = Fails m w sqlite_error ⊎ (((m w).0 ≡ ok tt) × ((m w).1.db ≡ db))

pub upsert_entities-Commits :
    (rs : List EntityRow) (w : World)
    → Commits (upsert_entities rs) w (record w.db { entities = put_entities rs w.db.entities })
unfolding upsert_entities transaction
upsert_entities-Commits [] w = inr (refl, refl)
upsert_entities-Commits (r ∷ rs) w = ground arith

pub upsert_devices-Commits :
    (rs : List DeviceRow) (w : World)
    → Commits (upsert_devices rs) w (record w.db { devices = put_devices rs w.db.devices })
unfolding upsert_devices transaction
upsert_devices-Commits [] w = inr (refl, refl)
upsert_devices-Commits (r ∷ rs) w = ground arith

pub bump_entity_event_counts-Commits :
    (k : String) (ts : ℕ) (w : World)
    → Commits
        (bump_entity_event_counts k ts)
        w
        (record w.db { entities = modify k (bump_row ts) w.db.entities })
unfolding bump_entity_event_counts transaction
bump_entity_event_counts-Commits k ts w = ground arith

pub insert_events-Commits :
    (rs : List EventRow) (w : World) → Commits (insert_events rs) w (append_events rs w.db)
unfolding insert_events transaction
insert_events-Commits [] w = inr (refl, refl)
insert_events-Commits (r ∷ rs) w = ground arith

pub increment_counter-Commits :
    (a : String) (h by : ℕ) (w : World)
    → Commits
        (increment_counter a h by)
        w
        (record w.db { counters = alter (a, h) (added by) w.db.counters })
unfolding increment_counter transaction
increment_counter-Commits a h by w = ground arith

pub increment_privacy_drop-Commits :
    (h by : ℕ) (w : World)
    → Commits
        (increment_privacy_drop h by)
        w
        (record w.db { privacy_drops = alter h (added by) w.db.privacy_drops })
unfolding increment_privacy_drop transaction
increment_privacy_drop-Commits h by w = ground arith

-- Areas: a row without a name makes the call raise, else it commits.
abbrev pub unnamed : List AreaRow → Bool
unnamed = any (λ r. r.name == none)

pub put_areas_refused :
    (rs : List AreaRow) (t : Dict String AreaRow)
    → unnamed rs ≡ true
    → put_areas rs t ≡ raise integrity_error
unfolding put_areas
put_areas_refused [] t h = cc
put_areas_refused (r ∷ rs) t h =
    ground (arith, put_areas_refused rs (alter r.area_id (merge_area r) t))

pub put_areas_named :
    (rs : List AreaRow) (t : Dict String AreaRow)
    → unnamed rs ≡ false
    → (t' : Dict String AreaRow) × (put_areas rs t ≡ ok t')
unfolding put_areas
put_areas_named [] t h = (t, refl)
put_areas_named (r ∷ rs) t h =
    let (t', e) = put_areas_named rs (alter r.area_id (merge_area r) t) (ground arith) in
    (t', ground arith)

-- One row without a name, anywhere in the list, makes an upsert of areas raise, and then none of
-- the rows is stored and no other table changes.
pub upsert_areas_refused :
    (rs : List AreaRow) (w : World)
    → unnamed rs ≡ true
    → ((upsert_areas rs w).0 ≢ ok tt) × ((upsert_areas rs w).1.db ≡ w.db)
unfolding upsert_areas transaction
upsert_areas_refused [] w h = cc
upsert_areas_refused (r ∷ rs) w h = ground (arith, put_areas_refused (r ∷ rs) w.db.areas)

pub Commits-ok :
    (m : Exec (Unit {0})) (w : World) (db : Db) → Commits m w db → (m w).0 ≡ ok tt → (m w).1.db ≡ db
Commits-ok m w db (inl (failed, _)) h = cc
Commits-ok m w db (inr (_, done)) h = done
