-- ===== src/Store/Dao.antt =====
-- `StoreDAO` of src/ai_ha/store/dao.py: one function for each method. A method that writes is one
-- transaction; a method that reads is a function of the database.
use Prim.Native.String.{compare}
use text.Mathlib.Text.{is_le}
use ai_home_assistant.Prelude.{
  ℕ, ◌+◌, String, Option, none, some, Bool, true, false, ◌&&◌, List, [], ◌∷◌, if◌then◌else◌, ltb,
  truthy, map_option, ◌==◌, string_eq, nat_eq, option_eq, pair_eq, keep, take, map,
}
use ai_home_assistant.Prelude.Dict.{Dict, get, alter, put, modify, values}
use ai_home_assistant.Prelude.Int.{ℤ, at_least, at_most, below}
use ai_home_assistant.Store.Rows.{AreaRow, DeviceRow, EntityRow, EventRow}
use ai_home_assistant.Store.Exec.{Db, Result, ok, raise, integrity_error, Exec, pure, transaction}

-- ON CONFLICT(area_id) DO UPDATE: all but the key and `first_seen_at` is overwritten.
unfoldable pub merge_area : AreaRow → Option AreaRow → AreaRow
merge_area r none = r
merge_area r (some old) = record r { area_id = old.area_id; first_seen_at = old.first_seen_at }

-- The name is NOT NULL: a row without one raises.
unfoldable pub put_areas : List AreaRow → Dict String AreaRow → Result (Dict String AreaRow)
unfolding merge_area
put_areas [] t = ok t
put_areas (r ∷ rs) t =
    let rest = put_areas rs (alter r.area_id (merge_area r) t) in
    elim r.name [ none ↦ raise integrity_error | some _ ↦ rest ]

abbrev pub commit_areas : Db → Result (Dict String AreaRow) → Result (Unit {0} × Db)
commit_areas db (ok t) = ok (tt, record db { areas = t })
commit_areas db (raise x) = raise x

unfoldable pub upsert_areas : List AreaRow → Exec (Unit {0})
unfolding put_areas transaction
upsert_areas [] = pure tt
upsert_areas (r ∷ rs) = transaction (λ db. commit_areas db (put_areas (r ∷ rs) db.areas))

-- ORDER BY name, in the order of code points.
name_le : Option String → Option String → Bool
name_le none _ = true
name_le (some a) none = false
name_le (some a) (some b) = is_le (compare a b)

insert_by_name : AreaRow → List AreaRow → List AreaRow
insert_by_name r [] = r ∷ []
insert_by_name r (s ∷ rs) = if name_le r.name s.name then r ∷ s ∷ rs else s ∷ insert_by_name r rs

sort_by_name : List AreaRow → List AreaRow
sort_by_name [] = []
sort_by_name (r ∷ rs) = insert_by_name r (sort_by_name rs)

unfoldable pub list_areas : Db → List AreaRow
unfolding sort_by_name insert_by_name name_le
list_areas db = sort_by_name (values db.areas)

unfoldable pub merge_device : DeviceRow → Option DeviceRow → DeviceRow
merge_device r none = r
merge_device r (some old) = record r {
  device_id = old.device_id;
  first_seen_at = old.first_seen_at;
}

unfoldable pub put_devices : List DeviceRow → Dict String DeviceRow → Dict String DeviceRow
unfolding merge_device
put_devices [] t = t
put_devices (r ∷ rs) t = put_devices rs (alter r.device_id (merge_device r) t)

unfoldable pub upsert_devices : List DeviceRow → Exec (Unit {0})
unfolding put_devices transaction
upsert_devices [] = pure tt
upsert_devices (r ∷ rs) =
    transaction (λ db. ok (tt, record db { devices = put_devices (r ∷ rs) db.devices }))

-- The conflict clause names neither `first_seen_at` nor the two counts.
unfoldable pub merge_entity : EntityRow → Option EntityRow → EntityRow
merge_entity r none = r
merge_entity r (some old) = record r {
  entity_id = old.entity_id;
  first_seen_at = old.first_seen_at;
  event_count_24h = old.event_count_24h;
  total_event_count = old.total_event_count;
}

unfoldable pub put_entities : List EntityRow → Dict String EntityRow → Dict String EntityRow
unfolding merge_entity
put_entities [] t = t
put_entities (r ∷ rs) t = put_entities rs (alter r.entity_id (merge_entity r) t)

unfoldable pub upsert_entities : List EntityRow → Exec (Unit {0})
unfolding put_entities transaction
upsert_entities [] = pure tt
upsert_entities (r ∷ rs) =
    transaction (λ db. ok (tt, record db { entities = put_entities (r ∷ rs) db.entities }))

unfoldable pub bump_row : ℕ → EntityRow → EntityRow
bump_row last_seen_at r = record r {
  event_count_24h = r.event_count_24h + 1;
  total_event_count = r.total_event_count + 1;
  last_seen_at = last_seen_at;
}

-- An entity that the table does not hold is not made.
unfoldable pub bump_entity_event_counts : String → ℕ → Exec (Unit {0})
unfolding transaction bump_row
bump_entity_event_counts entity_id last_seen_at =
    transaction
      (λ db. ok (tt, record db { entities = modify entity_id (bump_row last_seen_at) db.entities }))

-- The WHERE clause of `list_entities`; a comparison with NULL does not hold.
unfoldable pub entity_matches : Option String → Bool → Option String → EntityRow → Bool
entity_matches area_id orphan device_class r =
    (if orphan
      then r.area_id == none
      else elim area_id [ none ↦ true | some a ↦ r.area_id == some a ])
    && elim device_class [ none ↦ true | some c ↦ r.device_class == some c ]

unfoldable pub insert_by_id : EntityRow → List EntityRow → List EntityRow
insert_by_id r [] = r ∷ []
insert_by_id r (s ∷ rs) =
    let rest = insert_by_id r rs in
    if is_le (compare r.entity_id s.entity_id) then r ∷ s ∷ rs else s ∷ rest

-- The order of the primary key.
unfoldable pub sort_by_id : List EntityRow → List EntityRow
unfolding insert_by_id
sort_by_id [] = []
sort_by_id (r ∷ rs) = insert_by_id r (sort_by_id rs)

-- No ORDER BY. The table is WITHOUT ROWID, so that its rows, and the rows of one value of an index,
-- stand in the order of their `entity_id`. `limit` is at least 1 at every caller.
unfoldable pub list_entities : Option String → Bool → Option String → ℕ → Db → List EntityRow
unfolding entity_matches sort_by_id
list_entities area_id orphan device_class limit db =
    take limit (sort_by_id (keep (entity_matches area_id orphan device_class) (values db.entities)))

-- The rows get the next ids, in their order.
unfoldable pub append_events : List EventRow → Db → Db
append_events [] db = db
append_events (r ∷ rs) db =
    append_events rs
      (record db { events = (db.event_seq + 1, r) ∷ db.events; event_seq = db.event_seq + 1 })

unfoldable pub insert_events : List EventRow → Exec (Unit {0})
unfolding append_events transaction
insert_events [] = pure tt
insert_events (r ∷ rs) = transaction (λ db. ok (tt, append_events (r ∷ rs) db))

-- The arguments of `list_events` but the limit.
pub record EventQuery : Type 0 where
  pub entity_id : Option String
  pub area_id : Option String
  pub since_ts : Option ℤ
  pub until_ts : Option ℤ
  pub cursor : Option ℤ

-- `if x:` before a clause on a text: an empty text asks for nothing.
text_clause : Option String → Option String → Bool
text_clause wanted column = if truthy wanted then column == wanted else true

bound_clause : (ℕ → ℤ → Bool) → Option ℤ → ℕ → Bool
bound_clause test none n = true
bound_clause test (some z) n = test n z

-- The WHERE clause, but the one on the cursor.
unfoldable pub event_matches : EventQuery → EventRow → Bool
unfolding text_clause bound_clause
event_matches q r =
    text_clause q.entity_id (some r.entity_id)
    && text_clause q.area_id r.area_id
    && bound_clause at_least q.since_ts r.ts
    && bound_clause at_most q.until_ts r.ts

unfoldable pub row_matches : EventQuery → ℕ × EventRow → Bool
unfolding event_matches bound_clause
row_matches q e = event_matches q e.1 && bound_clause below q.cursor e.0

-- ORDER BY event_id DESC LIMIT ?, with the ids, which the method leaves out.
unfoldable pub select_events : EventQuery → ℕ → Db → List (ℕ × EventRow)
unfolding row_matches
select_events q limit db = take limit (keep (row_matches q) db.events)

unfoldable pub list_events : EventQuery → ℕ → Db → List EventRow
unfolding select_events
list_events q limit db = map (λ e. e.1) (select_events q limit db)

abbrev pub added : ℕ → Option ℕ → ℕ
added n none = n
added n (some old) = old + n

unfoldable pub increment_counter : String → ℕ → ℕ → Exec (Unit {0})
unfolding transaction
increment_counter area_id hour_bucket_utc by = transaction (λ db.
    ok (tt, record db { counters = alter (area_id, hour_bucket_utc) (added by) db.counters }))

-- hour_bucket_utc > now_hour - 24, over the integers.
unfoldable pub get_counters_24h : ℕ → Db → Dict (String × ℕ) ℕ
get_counters_24h now_hour db = keep (λ e. ltb now_hour (e.0.1 + 24)) db.counters

unfoldable pub increment_privacy_drop : ℕ → ℕ → Exec (Unit {0})
unfolding transaction
increment_privacy_drop hour_bucket_utc by =
    transaction (λ db.
      ok (tt, record db { privacy_drops = alter hour_bucket_utc (added by) db.privacy_drops }))

unfoldable pub get_privacy_drops_24h : ℕ → Db → Dict ℕ ℕ
get_privacy_drops_24h now_hour db = keep (λ e. ltb now_hour (e.0 + 24)) db.privacy_drops

unfoldable pub get_meta : String → Db → Option String
get_meta key db = map_option (λ e. e.0) (get key db.kv_meta)

unfoldable pub set_meta : String → String → ℕ → Exec (Unit {0})
unfolding transaction
set_meta key value ts_ms =
    transaction (λ db. ok (tt, record db { kv_meta = put key (value, ts_ms) db.kv_meta }))
