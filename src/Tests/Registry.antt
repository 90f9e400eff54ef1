-- ===== src/Tests/Registry.antt =====
-- The topology modules on the small home.
use mathlib.Core.Path.{subst}
use mathlib.Core.Bool.{false≢true}
use mathlib.Core.Option.{some_inj}
use text.Mathlib.TextEquality.{eq_iff}
use ai_home_assistant.Prelude.{
  ◌⊎◌, ℕ, String, none, some, true, false, [], ◌∷◌, ◌≡◌, ◌≢◌, refl, map_option, string_eq,
  option_eq,
}
use ai_home_assistant.Prelude.Dict.{get, alter}
use ai_home_assistant.Store.Rows.{EntityRow, SnapshotRow}
use ai_home_assistant.Store.Exec.{Db, ok, raise, key_error, empty_db, World}
use ai_home_assistant.Store.Dao.{upsert_areas, upsert_devices, upsert_entities}
use ai_home_assistant.Topology.Payload.{collect_areas, area_of, has_key}
use ai_home_assistant.Prelude.{not, any}
use ai_home_assistant.Topology.EntityIndex.{EntityRef, lookup, build}
use ai_home_assistant.Topology.EntityIndex.Lookup.{last_item}
use ai_home_assistant.Topology.Orphans.{find_orphans}
use ai_home_assistant.Topology.Orphans.Agreement.{NamesOnce, orphans_of_index, find_orphans_lem}
use ai_home_assistant.Topology.Snapshots.{
  hash_hex, id_of_hash, insert_if_changed, get_current, row_to_snapshot,
}
use ai_home_assistant.Topology.Snapshots.History.{IsHistory, insert_if_changed-IsHistory}
use ai_home_assistant.Topology.Orchestrator.{area_rows, require_areas, apply}
use ai_home_assistant.Topology.Orchestrator.Refresh.{Agrees, apply-Agrees}
use ai_home_assistant.Topology.Orchestrator.Partial.{sound, apply_older, apply_missing_device_id}
use ai_home_assistant.Prelude.Int.{pos}
use ai_home_assistant.Web.Topology.{SnapshotDetail, snapshot_detail, current_topology}
use ai_home_assistant.Web.Topology.Served.{apply_served}
use ai_home_assistant.Tests.Data.{home, odd_home, light, stray, old_switch, toy_codec, quiet}

program : Unit {0}
unfolding apply find_orphans build lookup get last_item hash_hex id_of_hash insert_if_changed
    get_current area_rows require_areas alter upsert_areas upsert_devices upsert_entities area_of
    collect_areas
program = tt

orphans_of_home : find_orphans home ≡ "sensor.x" ∷ []
unfolding program
orphans_of_home = refl

home-NamesOnce : NamesOnce home.entities home.entities
unfolding program
home-NamesOnce = (
  (λ k h _. subst (λ x. last_item x home.entities ≡ some light) (some_inj.0 h) refl),
  (
    (λ k h _. subst (λ x. last_item x home.entities ≡ some stray) (some_inj.0 h) refl),
    ((λ k h _. subst (λ x. last_item x home.entities ≡ some old_switch) (some_inj.0 h) refl), tt),
  ),
)

find_orphans_lem_example : find_orphans home ≡ orphans_of_index (build home 1) home.entities
unfolding program
find_orphans_lem_example = find_orphans_lem home 1 ((λ _. refl), tt) home-NamesOnce

abbrev light_ref : EntityRef
light_ref = record {
  device_id = some "d1";
  area_id = some "kitchen";
  device_class = none;
  snapshot_id = 1;
}

first_apply : (apply toy_codec home 100 [] quiet).0 ≡ ok (1, true)
unfolding program
first_apply = refl

light_found : lookup "light.k" (apply toy_codec home 100 [] quiet).2 ≡ some light_ref
unfolding program
light_found = refl

apply-Agrees_example :
    (row : EntityRow) × (get "light.k" (apply toy_codec home 100 [] quiet).1.db.entities ≡ some row)
    × Agrees light_ref row
apply-Agrees_example =
    apply-Agrees toy_codec home 100 [] quiet 1 "light.k" light_ref first_apply light_found

insert_if_changed-IsHistory_example :
    IsHistory (insert_if_changed toy_codec home 100 none quiet).1.db
insert_if_changed-IsHistory_example =
    insert_if_changed-IsHistory toy_codec home 100 none quiet (refl, tt)

first_insert : (insert_if_changed toy_codec home 100 none quiet).0 ≡ ok (1, true)
unfolding program
first_insert = refl

-- The payloads home, empty_home and home again.
abbrev row_of : ℕ → String → SnapshotRow
row_of n text = record {
  snapshot_id = n;
  ts = n;
  payload_hash = text;
  payload = text;
  diff_summary = none;
}

abbrev two_snapshots : World
two_snapshots = record {
  db = record empty_db { snapshots = row_of 2 "." ∷ row_of 1 "eee." ∷ []; snapshot_seq = 2 };
  faults = [];
}

other_hash : (row_of 2 ".").payload_hash ≢ hash_hex toy_codec home
unfolding hash_hex
other_hash e = absurd (false≢true ((eq_iff "." "eee.").1 e))

known_hash : id_of_hash (hash_hex toy_codec home) (row_of 1 "eee." ∷ []) ≡ some 1
unfolding program
known_hash = refl

apply_older_example :
    (apply toy_codec home 300 [] two_snapshots ≡ (ok (1, false), two_snapshots, build home 1))
    × (get_current toy_codec (apply toy_codec home 300 [] two_snapshots).1.db
        ≡ some (row_to_snapshot toy_codec (row_of 2 ".")))
apply_older_example =
    apply_older toy_codec home 300 [] two_snapshots 1 (row_of 2 ".") (row_of 1 "eee." ∷ []) refl
      other_hash known_hash

odd_home_lacks_id : any (λ d. not (has_key "device_id" d)) odd_home.devices ≡ true
unfolding has_key get
odd_home_lacks_id = refl

apply_missing_device_id_example :
    (db' : Db) × (apply toy_codec odd_home 100 [] (sound empty_db)
      ≡ (raise key_error, sound db', []))
    × (apply toy_codec odd_home 200 [] (sound db') ≡ (ok (1, false), sound db', build odd_home 1))
    × (db'.entities ≡ [])
unfolding program
apply_missing_device_id_example =
    apply_missing_device_id toy_codec odd_home 100 [] empty_db 200 refl refl odd_home_lacks_id

apply_served_example :
    let db = (apply toy_codec home 100 [] quiet).1.db in
    (d : SnapshotDetail) × (snapshot_detail toy_codec (pos 1) db ≡ some d)
    × (d.hash ≡ hash_hex toy_codec home)
    × ((true ≡ false)
        ⊎ ((d.payload ≡ toy_codec.loads (toy_codec.dumps home))
            × (map_option (λ s. s.snapshot_id) (current_topology toy_codec db) ≡ some 1)))
apply_served_example = apply_served toy_codec home 100 [] quiet 1 true (refl, tt) first_apply
