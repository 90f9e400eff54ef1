-- ===== src/Tests/Tables.antt =====
-- The data access object on small tables.
use ai_home_assistant.Prelude.{
  none, some, false, [], ◌∷◌, ◌≡◌, refl, arith, take, drop, keep, string_eq, nat_eq, pair_eq,
}
use ai_home_assistant.Prelude.Dict.{alter}
use ai_home_assistant.Store.Rows.{EntityRow}
use ai_home_assistant.Store.Exec.{Db, empty_db}
use ai_home_assistant.Store.Dao.{
  EventQuery, row_matches, select_events, upsert_entities, list_entities, list_events,
}
use ai_home_assistant.Store.Pages.{after, select_events-after}
use ai_home_assistant.Tests.Data.{seen, light_row, row_at}

abbrev moved : EntityRow
moved = record light_row { area_id = some "hall"; first_seen_at = 900; total_event_count = 0 }

-- The refresh moves the light and keeps its 7 events.
upsert_keeps_counts :
    list_entities none false none 10 (upsert_entities (moved ∷ []) seen).1.db
    ≡ record moved { first_seen_at = 100; total_event_count = 7 } ∷ []
unfolding upsert_entities list_entities alter
upsert_keeps_counts = refl

abbrev everything : EventQuery
everything = record {
  entity_id = none;
  area_id = none;
  since_ts = none;
  until_ts = none;
  cursor = none;
}

abbrev three : Db
three = record empty_db {
  events = (3, row_at 30) ∷ (2, row_at 20) ∷ (1, row_at 10) ∷ [];
  event_seq = 3;
}

newest_first : list_events everything 2 three ≡ row_at 30 ∷ row_at 20 ∷ []
unfolding list_events
newest_first = refl

select_events-after_example :
    select_events (after everything (2, row_at 20)) 2 three
    ≡ take 2 (drop 2 (keep (row_matches everything) three.events))
unfolding select_events
select_events-after_example =
    select_events-after everything 2 three (omega arith) (2, row_at 20) refl
