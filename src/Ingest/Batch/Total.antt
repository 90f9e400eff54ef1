-- ===== src/Ingest/Batch/Total.antt =====
-- A batch is written in full where no transaction fails.
use ai_home_assistant.Prelude.{ℕ, String, [], ◌∷◌, ◌≡◌, refl}
use ai_home_assistant.Prelude.Dict.{Dict}
use ai_home_assistant.Store.Exec.{World, ◌>>◌}
use ai_home_assistant.Store.Dao.{insert_events, increment_counter, bump_entity_event_counts}
use ai_home_assistant.Store.Sound.{
  Succeeds, insert_events-Succeeds, increment_counter-Succeeds, bump_entity_event_counts-Succeeds,
  >>-Succeeds,
}
use ai_home_assistant.Ingest.Batch.{Batch, bump_areas, bump_entities, write_batch}

bump_areas-Succeeds :
    (d : Dict (String × ℕ) ℕ) (w : World) → w.faults ≡ [] → Succeeds (bump_areas d) w
unfolding bump_areas
bump_areas-Succeeds [] w h = (refl, h)
bump_areas-Succeeds (((a, b), n) ∷ d) w h =
    >>-Succeeds (increment_counter a b n) (bump_areas d) w (increment_counter-Succeeds b n a w h)
      (bump_areas-Succeeds d (increment_counter a b n w).1)

bump_entities-Succeeds :
    (d : Dict String ℕ) (w : World) → w.faults ≡ [] → Succeeds (bump_entities d) w
unfolding bump_entities
bump_entities-Succeeds [] w h = (refl, h)
bump_entities-Succeeds ((k, n) ∷ d) w h =
    >>-Succeeds (bump_entity_event_counts k n) (bump_entities d) w
      (bump_entity_event_counts-Succeeds n n k w h)
      (bump_entities-Succeeds d (bump_entity_event_counts k n w).1)

pub write_batch-Succeeds : (b : Batch) (w : World) → w.faults ≡ [] → Succeeds (write_batch b) w
unfolding write_batch
write_batch-Succeeds b w h =
    let areas = bump_areas b.per_area in
    let entities = bump_entities b.per_entity_last in
    >>-Succeeds (insert_events b.rows) (areas >> entities) w (insert_events-Succeeds b.rows w h)
      (λ h1.
        let w1 = (insert_events b.rows w).1 in
        >>-Succeeds areas entities w1 (bump_areas-Succeeds b.per_area w1 h1)
          (bump_entities-Succeeds b.per_entity_last (areas w1).1))
