-- ===== src/Web/Pages/Rooms.antt =====
-- The first page of src/ai_ha/web/routes/pages.py, and the pages and routes that its rooms lead to.
use ai_home_assistant.Prelude.{
  ℕ, String, some, List, [], ◌∷◌, ◌≡◌, refl, inl, inr, ◌==◌, string_eq, Bool-cases, beq_refl,
  eq_of_beq, length, length-map, All, All-map, All-weaken,
}
use ai_home_assistant.Prelude.Dict.{Dict}
use ai_home_assistant.Store.Rows.{AreaRow}
use ai_home_assistant.Store.Exec.{Db}
use ai_home_assistant.Store.Dao.{list_areas}
use ai_home_assistant.Web.Areas.Detail.{AreaDetail, match_area, detail_of, area_detail}
use ai_home_assistant.Web.Pages.{RoomView, room_view, rooms, Room, room_of, room}

abbrev Found : List AreaRow → AreaRow → Type 0
Found areas a = (b : AreaRow) × (match_area a.area_id areas ≡ some b) × (b.area_id ≡ a.area_id)

Found-weaken :
    (c : AreaRow) (areas : List AreaRow) (a : AreaRow) → Found areas a → Found (c ∷ areas) a
unfolding match_area
Found-weaken c areas a (b, found, same) = elim (Bool-cases (c.area_id == a.area_id)) [
  | inl here ↦ (c, rw here refl, eq_of_beq c.area_id a.area_id here)
  | inr there ↦ (b, rw there found, same)
]

All-Found : (areas : List AreaRow) → All (Found areas) areas
unfolding match_area
All-Found [] = tt
All-Found (a ∷ areas) = (
  (a, rw (beq_refl a.area_id) refl, refl),
  All-weaken areas (Found-weaken a areas) (All-Found areas),
)

-- The page of a room and the JSON view of its area are there, and list as many entities as the first
-- page says.
pub record Opens (db : Db) (v : RoomView) : Type 0 where
  pub page : Room
  pub view : AreaDetail
  pub has_page : room v.area_id db ≡ some page
  pub has_view : area_detail v.area_id db ≡ some view
  pub page_is_area : page.area.area_id ≡ v.area_id
  pub view_is_area : view.area.area_id ≡ v.area_id
  pub page_count : length page.entities ≡ v.entity_count
  pub view_count : length view.entities ≡ v.entity_count

Opens-room_view :
    (per_area : Dict String ℕ) (now : ℕ) (db : Db) (a : AreaRow)
    → Found (list_areas db) a
    → Opens db (room_view per_area now db a)
unfolding room area_detail room_view detail_of room_of
Opens-room_view per_area now db a (b, found, same) = record {
  page = room_of a.area_id db b;
  view = detail_of a.area_id db b;
  has_page = rw found refl;
  has_view = rw found refl;
  page_is_area = same;
  view_is_area = same;
  page_count = refl;
  view_count = length-map _ _;
}

-- Every room that the first page lists has its page and its JSON view, which are of that area and
-- list as many entities as the first page says.
pub rooms-Opens : (now : ℕ) (db : Db) → All (Opens db) (rooms now db)
unfolding rooms
rooms-Opens now db =
    All-map (Opens db) (room_view _ now db) (list_areas db)
      (All-weaken (list_areas db) (Opens-room_view _ now db) (All-Found (list_areas db)))
