-- ===== src/Web/Areas.antt =====
-- The sums and the activity of `GET /api/v1/areas` in src/ai_ha/web/routes/areas.py. The cutoff's
-- subtraction is on the other side: `last_seen_max > now - 600_000`. One reading of the
-- clock stands for both. The program always passes a state; the empty answer without one is left
-- out.
pub mod Sums
pub mod Detail
use ai_home_assistant.Prelude.{
  ℕ, ◌+◌, ◌/◌, String, Option, none, some, Bool, false, List, [], ◌∷◌, if◌then◌else◌, ltb, max,
  truthy, length, string_eq, map,
}
use ai_home_assistant.Prelude.Dict.{Dict, get, alter}
use ai_home_assistant.Store.Rows.{AreaRow, EntityRow}
use ai_home_assistant.Store.Exec.{Db}
use ai_home_assistant.Store.Dao.{added, list_areas, list_entities, get_counters_24h}

-- `per_area[aid] = per_area.get(aid, 0) + n` for each counter.
unfoldable pub sum_areas : Dict (String × ℕ) ℕ → Dict String ℕ → Dict String ℕ
sum_areas [] per_area = per_area
sum_areas (((aid, bucket), n) ∷ counters) per_area =
    sum_areas counters (alter aid (added n) per_area)

abbrev pub or_zero : Option ℕ → ℕ
or_zero none = 0
or_zero (some n) = n

abbrev count_class : Option String → Dict String ℕ → Dict String ℕ
count_class none dist = dist
count_class (some c) dist = if truthy (some c) then alter c (added 1) dist else dist

unfoldable pub class_distribution : List EntityRow → Dict String ℕ → Dict String ℕ
class_distribution [] dist = dist
class_distribution (e ∷ es) dist = class_distribution es (count_class e.device_class dist)

unfoldable pub last_seen_max : List EntityRow → ℕ → ℕ
last_seen_max [] n = n
last_seen_max (e ∷ es) n = last_seen_max es (max n e.last_seen_at)

pub record AreaView : Type 0 where
  pub area_id : String
  pub name : Option String
  pub floor_id : Option String
  pub events_per_hour_24h : ℕ
  pub device_class_distribution : Dict String ℕ
  pub is_active : Bool
  pub active_since : Option ℕ
  pub entity_count : ℕ

unfoldable pub area_view : Dict String ℕ → ℕ → Db → AreaRow → AreaView
unfolding class_distribution last_seen_max
area_view per_area now db r =
    let entities = list_entities (some r.area_id) false none 1000 db in
    let seen = last_seen_max entities 0 in
    let active = ltb now (seen + 600000) in
    record {
      area_id = r.area_id;
      name = r.name;
      floor_id = r.floor_id;
      events_per_hour_24h = or_zero (get r.area_id per_area);
      device_class_distribution = class_distribution entities [];
      is_active = active;
      active_since = if active then some seen else none;
      entity_count = length entities;
    }

-- `now` is the clock in milliseconds.
unfoldable pub list_areas_route : ℕ → Db → List AreaView
unfolding sum_areas area_view
list_areas_route now db =
    let per_area = sum_areas (get_counters_24h (now / 3600000) db) [] in
    map (area_view per_area now db) (list_areas db)
