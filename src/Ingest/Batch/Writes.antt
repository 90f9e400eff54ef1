-- ===== src/Ingest/Batch/Writes.antt =====
-- What the writes of a batch do to the tables.
use ai_home_assistant.Prelude.{
  ◌≢◌, ℕ, ◌+◌, String, Option, none, some, List, [], ◌∷◌, ◌++◌, map, ◌≡◌, refl, arith, ◌∙◌, ap, sym,
  inl, inr, ◌⊎◌, if◌then◌else◌, ◌==◌, string_eq, nat_eq, pair_eq, append_assoc, append-nil,
  eq_of_beq, Bool-cases,
}
use ai_home_assistant.Prelude.Dict.{Dict, get, alter, get-alter, get-modify}
use ai_home_assistant.Store.Rows.{EntityRow, EventRow}
use ai_home_assistant.Store.Exec.{Db, ok, World, >>=-eq-ok, Result-cases, ◌>>◌}
use ai_home_assistant.Store.Dao.{
  added, append_events, insert_events, increment_counter, bump_entity_event_counts, bump_row,
}
use ai_home_assistant.Store.Outcomes.{
  insert_events-Commits, increment_counter-Commits, bump_entity_event_counts-Commits, Commits-ok,
}
use ai_home_assistant.Ingest.Batch.{HaEvent, Batch, bump_areas, bump_entities, write_batch}
use ai_home_assistant.Ingest.Batch.Collect.{tally, entries_of}

-- A counter, 0 if there is none.
abbrev pub count_at : Option ℕ → ℕ
count_at none = 0
count_at (some n) = n

-- The events of the table, oldest first, without the columns that ingest adds.
unfoldable pub event_of : EventRow → HaEvent
event_of r = record {
  ts_ms = r.ts;
  entity_id = r.entity_id;
  event_type = r.event_type;
  old_state = r.old_state;
  new_state = r.new_state;
  context_user_id = r.context_user_id;
  context_parent_id = r.context_parent_id;
}

unfoldable pub history : List (ℕ × EventRow) → List HaEvent
unfolding event_of
history [] = []
history (e ∷ es) = history es ++ event_of e.1 ∷ []

pub history-append_events :
    (rs : List EventRow) (db : Db)
    → history (append_events rs db).events ≡ history db.events ++ map event_of rs
unfolding append_events history
history-append_events [] db = sym (append-nil (history db.events))
history-append_events (r ∷ rs) db =
    history-append_events rs
      (record db { events = (db.event_seq + 1, r) ∷ db.events; event_seq = db.event_seq + 1 })
    ∙ append_assoc (history db.events) (event_of r ∷ []) (map event_of rs)

-- What storing events leaves alone.
append_events-same :
    (rs : List EventRow) (db : Db)
    → ((append_events rs db).counters ≡ db.counters)
      × ((append_events rs db).entities ≡ db.entities)
      × ((append_events rs db).privacy_drops ≡ db.privacy_drops)
unfolding append_events
append_events-same [] db = (refl, refl, refl)
append_events-same (r ∷ rs) db =
    append_events-same rs
      (record db { events = (db.event_seq + 1, r) ∷ db.events; event_seq = db.event_seq + 1 })

-- What the loop over the areas leaves alone, whatever the outcome.
abbrev OnlyCounters : Db → Db → Type 0
OnlyCounters a b =
    (b.events ≡ a.events) × (b.entities ≡ a.entities) × (b.privacy_drops ≡ a.privacy_drops)

abbrev OnlyEntities : Db → Db → Type 0
OnlyEntities a b =
    (b.events ≡ a.events) × (b.counters ≡ a.counters) × (b.privacy_drops ≡ a.privacy_drops)

pub bump_areas-OnlyCounters :
    (d : Dict (String × ℕ) ℕ) (w : World) → OnlyCounters w.db (bump_areas d w).1.db
unfolding bump_areas
bump_areas-OnlyCounters [] w = (refl, refl, refl)
bump_areas-OnlyCounters (((a, h), n) ∷ d) w = elim (increment_counter-Commits a h n w) [
  | inl (failed, same) ↦ rw (failed, same) (refl, refl, refl)
  | inr (returned, done) ↦
      let (p, q, r) = bump_areas-OnlyCounters d (increment_counter a h n w).1 in
      rw returned (
        p ∙ ap (λ x. x.events) done,
        q ∙ ap (λ x. x.entities) done,
        r ∙ ap (λ x. x.privacy_drops) done,
      )
]

pub bump_entities-OnlyEntities :
    (d : Dict String ℕ) (w : World) → OnlyEntities w.db (bump_entities d w).1.db
unfolding bump_entities
bump_entities-OnlyEntities [] w = (refl, refl, refl)
bump_entities-OnlyEntities ((k, ts) ∷ d) w = elim (bump_entity_event_counts-Commits k ts w) [
  | inl (failed, same) ↦ rw (failed, same) (refl, refl, refl)
  | inr (returned, done) ↦
      let (p, q, r) = bump_entities-OnlyEntities d (bump_entity_event_counts k ts w).1 in
      rw returned (
        p ∙ ap (λ x. x.events) done,
        q ∙ ap (λ x. x.counters) done,
        r ∙ ap (λ x. x.privacy_drops) done,
      )
]

count_at-alter :
    (k j : String × ℕ) (n : ℕ) (d : Dict (String × ℕ) ℕ)
    → count_at (get k (alter j (added n) d))
      ≡ (if j == k then count_at (get k d) + n else count_at (get k d))
count_at-alter k j n d = rw get-alter (elim (Bool-cases (j == k)) [
  | inl same ↦ let path : j ≡ k = eq_of_beq j k same in rw path (ground arith)
  | inr other ↦ rw other
])

abbrev pub counter_of : String × ℕ → Db → ℕ
counter_of k db = count_at (get k db.counters)

-- A loop over the areas that returns has added each number under its key.
pub counter-bump_areas :
    (d : Dict (String × ℕ) ℕ) (w : World) (k : String × ℕ)
    → (bump_areas d w).0 ≡ ok tt
    → counter_of k (bump_areas d w).1.db ≡ counter_of k w.db + tally k d
unfolding bump_areas
counter-bump_areas [] w k h = omega arith
counter-bump_areas (((a, b), n) ∷ d) w k h = elim (increment_counter-Commits a b n w) [
  | inl (failed, _) ↦ cc
  | inr (returned, done) ↦
      let w' = (increment_counter a b n w).1 in
      let ih = counter-bump_areas d w' k (rw returned at h) in
      rw returned
        (ih ∙ ground (arith, ap (counter_of k) done, count_at-alter k (a, b) n w.db.counters))
]

abbrev total_of : Option EntityRow → ℕ
total_of none = 0
total_of (some r) = r.total_event_count

abbrev pub events_counted : String → Db → ℕ
events_counted k db = total_of (get k db.entities)

-- A loop over the entities that returns has counted one event for each entry.
pub counted-bump_entities :
    (d : Dict String ℕ) (w : World) (k : String) (row : EntityRow)
    → get k w.db.entities ≡ some row
    → (bump_entities d w).0 ≡ ok tt
    → (new : EntityRow) × (get k (bump_entities d w).1.db.entities ≡ some new)
      × (new.total_event_count ≡ row.total_event_count + entries_of k d)
unfolding bump_entities bump_row
counted-bump_entities [] w k row there h = (row, there, omega arith)
counted-bump_entities ((j, ts) ∷ d) w k row there h =
    elim (bump_entity_event_counts-Commits j ts w) [
      | inl (failed, _) ↦ cc
      | inr (returned, done) ↦
          let w' = (bump_entity_event_counts j ts w).1 in
          let mid : EntityRow = (if j == k then bump_row ts row else row) in
          let e : get k w'.db.entities ≡ some mid = rw done (
            rw get-modify (elim (Bool-cases (j == k)) [
              | inl same ↦ let path : j ≡ k = eq_of_beq j k same in rw (path, there) (ground arith)
              | inr other ↦ rw other there
            ])) in
          let (new, kept, n) = counted-bump_entities d w' k mid e (rw returned at h) in
          (new, rw returned kept, ground arith)
    ]

bumps-events :
    (d : Dict (String × ℕ) ℕ) (f : Dict String ℕ) (w : World)
    → ((bump_areas d >> bump_entities f) w).1.db.events ≡ w.db.events
bumps-events d f w = elim (Result-cases (bump_areas d w).0) [
  | inl (_, e) ↦
      rw e ((bump_entities-OnlyEntities f (bump_areas d w).1).0 ∙ (bump_areas-OnlyCounters d w).0)
  | inr (_, e) ↦ rw e (bump_areas-OnlyCounters d w).0
]

-- The events of a batch are stored first: they stand in the table unless the insert itself fails,
-- also where a later write fails.
pub history-write_batch :
    (b : Batch) (w : World)
    → (((write_batch b w).0 ≢ ok tt) × ((write_batch b w).1.db ≡ w.db))
      ⊎ (((insert_events b.rows w).0 ≡ ok tt)
          × (history (write_batch b w).1.db.events ≡ history w.db.events ++ map event_of b.rows))
unfolding write_batch
history-write_batch b w = elim (insert_events-Commits b.rows w) [
  | inl (failed, same) ↦ inl (rw failed (λ e. cc), rw failed same)
  | inr (returned, done) ↦ inr (
    returned,
    rw returned (
        ap history (bumps-events b.per_area b.per_entity_last (insert_events b.rows w).1)
        ∙ ap (λ (x : Db). history x.events) done
        ∙ history-append_events b.rows w.db),
  )
]

module _ (b : Batch) (w : World) (h : (write_batch b w).0 ≡ ok tt) where
  abbrev w1 : World
  w1 = (insert_events b.rows w).1

  abbrev w2 : World
  w2 = (bump_areas b.per_area w1).1

  -- The three parts of a batch that was written without an error.
  parts :
      (w1.db ≡ append_events b.rows w.db)
      × ((bump_areas b.per_area w1).0 ≡ ok tt)
      × (write_batch b w ≡ bump_entities b.per_entity_last w2)
  unfolding write_batch
  parts =
      let rest = bump_areas b.per_area >> bump_entities b.per_entity_last in
      let (_, r1, e1) = >>=-eq-ok (insert_events b.rows) (λ _. rest) w h in
      let h1 : (rest w1).0 ≡ ok tt = rw (← e1) h in
      let (_, r2, e2) =
        >>=-eq-ok (bump_areas b.per_area) (λ _. bump_entities b.per_entity_last) w1 h1 in
      (Commits-ok (insert_events b.rows) w _ (insert_events-Commits b.rows w) r1, r2, e1 ∙ e2)

  -- A batch that was written has added each area's number at its key.
  pub counter-write_batch :
      (k : String × ℕ)
      → counter_of k (write_batch b w).1.db ≡ counter_of k w.db + tally k b.per_area
  counter-write_batch k =
      let (d1, r2, e) = parts in
      let same = (bump_entities-OnlyEntities b.per_entity_last w2).1 in
      rw e (
        ap (λ x. count_at (get k x)) same
        ∙ counter-bump_areas b.per_area w1 k r2
        ∙ ap (λ x. count_at (get k x) + tally k b.per_area)
            (ap (λ (x : Db). x.counters) d1 ∙ (append_events-same b.rows w.db).0))

  -- A batch that was written has counted one event for each entity in it that the table holds.
  pub counted-write_batch :
      (k : String) (row : EntityRow)
      → get k w.db.entities ≡ some row
      → (new : EntityRow) × (get k (write_batch b w).1.db.entities ≡ some new)
        × (new.total_event_count ≡ row.total_event_count + entries_of k b.per_entity_last)
  counted-write_batch k row there =
      let (d1, r2, e) = parts in
      let same : w2.db.entities ≡ w.db.entities =
        (bump_areas-OnlyCounters b.per_area w1).1
        ∙ ap (λ (x : Db). x.entities) d1
        ∙ (append_events-same b.rows w.db).1 in
      let h3 : (bump_entities b.per_entity_last w2).0 ≡ ok tt = rw (← e) h in
      rw e (counted-bump_entities b.per_entity_last w2 k row (ap (get k) same ∙ there) h3)

  pub privacy_drops-write_batch : (write_batch b w).1.db.privacy_drops ≡ w.db.privacy_drops
  privacy_drops-write_batch =
      let (d1, r2, e) = parts in
      rw e (
        (bump_entities-OnlyEntities b.per_entity_last w2).2
        ∙ (bump_areas-OnlyCounters b.per_area w1).2
        ∙ ap (λ (x : Db). x.privacy_drops) d1
        ∙ (append_events-same b.rows w.db).2)
