-- ===== src/Store/Sound.antt =====
-- The writes of src/ai_ha/store/dao.py in a world where no transaction fails.
use ai_home_assistant.Prelude.{ℕ, String, List, [], ◌∷◌, ◌≡◌, refl, arith}
use ai_home_assistant.Store.Rows.{EventRow}
use ai_home_assistant.Store.Exec.{ok, Exec, World, transaction, ◌>>◌}
use ai_home_assistant.Store.Dao.{
  insert_events, increment_counter, increment_privacy_drop, bump_entity_event_counts,
}

abbrev pub Succeeds : Exec (Unit {0}) → World → Type 0
Succeeds m w = ((m w).0 ≡ ok tt) × ((m w).1.faults ≡ [])

pub insert_events-Succeeds :
    (rs : List EventRow) (w : World) → w.faults ≡ [] → Succeeds (insert_events rs) w
unfolding insert_events transaction
insert_events-Succeeds [] w h = (refl, h)
insert_events-Succeeds (r ∷ rs) w h = ground arith

module _ (n m : ℕ) (k : String) (w : World) (h : w.faults ≡ []) where
  pub increment_counter-Succeeds : Succeeds (increment_counter k n m) w
  unfolding increment_counter transaction
  increment_counter-Succeeds = ground arith

  pub increment_privacy_drop-Succeeds : Succeeds (increment_privacy_drop n m) w
  unfolding increment_privacy_drop transaction
  increment_privacy_drop-Succeeds = ground arith

  pub bump_entity_event_counts-Succeeds : Succeeds (bump_entity_event_counts k n) w
  unfolding bump_entity_event_counts transaction
  bump_entity_event_counts-Succeeds = ground arith

pub >>-Succeeds :
    (m k : Exec (Unit {0})) (w : World)
    → Succeeds m w
    → ((m w).1.faults ≡ [] → Succeeds k (m w).1)
    → Succeeds (m >> k) w
>>-Succeeds m k w (returned, rest) next = rw returned (next rest)
