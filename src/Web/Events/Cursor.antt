-- ===== src/Web/Events/Cursor.antt =====
-- The cursor of src/ai_ha/web/routes/events.py, read by src/ai_ha/store/dao.py.
use ai_home_assistant.Prelude.{
  ℕ, ◌+◌, ◌≤◌, ◌<◌, String, Option, none, some, List, [], ◌∷◌, ◌≡◌, refl, ap, ◌∙◌, arith, keep,
  take, last?, lt→ltb, map, length, nat_eq, nat_beq_iff,
}
use ai_home_assistant.Prelude.Int.{ℤ, pos}
use ai_home_assistant.Store.Rows.{EventRow}
use ai_home_assistant.Store.Exec.{Db}
use ai_home_assistant.Store.Dao.{event_matches, row_matches, select_events, list_events}
use ai_home_assistant.Store.Pages.{Descends, IsNumbered}
use ai_home_assistant.Web.Events.{
  view_of, events_page, EventsFilter, query_of, cursor_after, next_cursor, page_of,
  list_events_route,
}

keep-far_cursor :
    (f : EventsFilter) (c b : ℕ) (es : List (ℕ × EventRow))
    → Descends b es
    → b ≤ c
    → keep (row_matches (query_of f (some (pos c)))) es ≡ keep (row_matches (query_of f none)) es
unfolding row_matches event_matches
keep-far_cursor f c b [] d h = refl
keep-far_cursor f c b (e ∷ es) d h =
    let ih = keep-far_cursor f c e.0 es d.1 (omega arith) in
    rw (lt→ltb e.0 c (omega arith), ih) refl

-- A cursor above every id of the table asks for nothing.
list_events-far_cursor :
    (f : EventsFilter) (limit c : ℕ) (db : Db)
    → IsNumbered db
    → db.event_seq < c
    → list_events (query_of f (some (pos c))) limit db ≡ list_events (query_of f none) limit db
unfolding list_events select_events
list_events-far_cursor f limit c db n h =
    ap (λ es. map (λ e. e.1) (take limit es))
      (keep-far_cursor f c (db.event_seq + 1) db.events n (omega arith))

module _ (int : String → Option ℤ) (str : ℕ → String) where
  next_cursor_full :
      (limit : ℕ) (rows : List EventRow) (r : EventRow)
      → last? rows ≡ some r
      → length rows ≡ limit
      → next_cursor int str limit rows ≡ some (str r.ts)
  unfolding next_cursor
  next_cursor_full limit rows r h l =
      ap (cursor_after int str limit (length rows)) h
      ∙ rw ((nat_beq_iff (length rows) limit).1 l) refl

  -- When the reply to a request without a cursor fills its page, it carries the time of its last
  -- event as the next cursor. Where that time is above every event id of the table, and `int` reads
  -- it back, the same request with that cursor gets the same page and the same cursor again.
  pub list_events_route_repeats :
      (f : EventsFilter) (limit : ℕ) (db : Db) (r : EventRow)
      → int (str r.ts) ≡ some (pos r.ts)
      → IsNumbered db
      → last? (list_events (query_of f none) limit db) ≡ some r
      → length (list_events (query_of f none) limit db) ≡ limit
      → db.event_seq < r.ts
      → let first = list_events_route int str f limit none db in
        (first
          ≡ events_page (record {
            events = map view_of (list_events (query_of f none) limit db);
            next_cursor = some (str r.ts);
          }))
        × (list_events_route int str f limit (some (str r.ts)) db ≡ first)
  unfolding list_events_route page_of
  list_events_route_repeats f limit db r back n last full far =
      let rows = list_events (query_of f none) limit db in
      (
        ap (λ c. events_page (record { events = map view_of rows; next_cursor = c }))
            (next_cursor_full limit rows r last full),
        rw back (ap (page_of int str limit) (list_events-far_cursor f limit r.ts db n far)),
      )
