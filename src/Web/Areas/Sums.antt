-- ===== src/Web/Areas/Sums.antt =====
-- The event counts of src/ai_ha/web/routes/areas.py.
use ai_home_assistant.Prelude.{
  ℕ, ◌+◌, String, Option, none, some, List, [], ◌∷◌, ◌≡◌, refl, ap, ◌∙◌, arith, inl, inr,
  Bool-cases, eq_of_beq, if◌then◌else◌, string_eq, ◌==◌, map, ◌/◌,
}
use ai_home_assistant.Prelude.Dict.{Dict, get, alter, get-alter}
use ai_home_assistant.Store.Rows.{AreaRow}
use ai_home_assistant.Store.Exec.{Db}
use ai_home_assistant.Store.Dao.{added, list_areas, get_counters_24h}
use ai_home_assistant.Web.Areas.{or_zero, sum_areas, AreaView, area_view, list_areas_route}

-- The sum of an area's counters.
abbrev pub total_of : String → Dict (String × ℕ) ℕ → ℕ
total_of area [] = 0
total_of area (((aid, bucket), n) ∷ counters) =
    let rest = total_of area counters in if aid == area then n + rest else rest

added_lem : (n : ℕ) (o : Option ℕ) → added n o ≡ or_zero o + n
added_lem n none = omega arith
added_lem n (some m) = refl

sum_areas_lem :
    (area : String) (counters : Dict (String × ℕ) ℕ) (per_area : Dict String ℕ)
    → or_zero (get area (sum_areas counters per_area))
      ≡ or_zero (get area per_area) + total_of area counters
unfolding sum_areas
sum_areas_lem area [] per_area = omega arith
sum_areas_lem area (((aid, bucket), n) ∷ counters) per_area =
    let ih = sum_areas_lem area counters (alter aid (added n) per_area) in
    let one = get-alter aid area (added n) per_area in
    elim (Bool-cases (aid == area)) [
      | inl t ↦
          let same : get aid per_area ≡ get area per_area =
            ap (λ k. get k per_area) (eq_of_beq aid area t) in
          let now_there : or_zero (get area (alter aid (added n) per_area))
              ≡ added n (get area per_area) =
            ap or_zero one ∙ rw (t, same) refl in
          let grown = added_lem n (get area per_area) in rw t (omega (arith, ih, now_there, grown))
      | inr f ↦
          let kept : or_zero (get area (alter aid (added n) per_area))
              ≡ or_zero (get area per_area) =
            ap or_zero one ∙ rw f refl in
          rw f (omega (arith, ih, kept))
    ]

abbrev pub shown : AreaView → String × ℕ
shown v = (v.area_id, v.events_per_hour_24h)

abbrev pub with_total : Dict (String × ℕ) ℕ → AreaRow → String × ℕ
with_total counters r = (r.area_id, total_of r.area_id counters)

-- The page lists the rows of `list_areas` in their order, each with the sum of the counters of its
-- area that `get_counters_24h` reads at the hour of the request.
pub list_areas_route-totals :
    (now : ℕ) (db : Db)
    → map shown (list_areas_route now db)
      ≡ map (with_total (get_counters_24h (now / 3600000) db)) (list_areas db)
unfolding list_areas_route area_view get
list_areas_route-totals now db = each (list_areas db)
  where
    each :
        (rs : List AreaRow)
        → map shown (map (area_view (sum_areas (get_counters_24h (now / 3600000) db) []) now db) rs)
          ≡ map (with_total (get_counters_24h (now / 3600000) db)) rs
    each [] = refl
    each (r ∷ rs) =
        let total = sum_areas_lem r.area_id (get_counters_24h (now / 3600000) db) [] in
        let head : or_zero (get r.area_id (sum_areas (get_counters_24h (now / 3600000) db) []))
            ≡ total_of r.area_id (get_counters_24h (now / 3600000) db) =
          omega (arith, total) in
        rw (head, each rs) refl
