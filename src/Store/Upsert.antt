-- ===== src/Store/Upsert.antt =====
-- What the upserts of src/ai_ha/store/dao.py store, and what they keep of the rows that are there.
use ai_home_assistant.Prelude.{
  String, Option, none, some, true, List, [], ◌∷◌, ◌≡◌, refl, ◌∙◌, arith, inl, inr, if◌then◌else◌,
  Option-cases, ◌==◌, string_eq,
}
use mathlib.Core.Path.{subst}
use ai_home_assistant.Prelude.Dict.{Dict, get, alter, get-alter}
use ai_home_assistant.Store.Rows.{EntityRow}
use ai_home_assistant.Store.Exec.{ok, World}
use ai_home_assistant.Store.Outcomes.{upsert_entities-Commits}
use ai_home_assistant.Store.Dao.{merge_entity, put_entities, upsert_entities}

-- What a topology refresh may not change of an entity.
pub record SameHistory (old new : EntityRow) : Type 0 where
  pub first_seen_at : new.first_seen_at ≡ old.first_seen_at
  pub event_count_24h : new.event_count_24h ≡ old.event_count_24h
  pub total_event_count : new.total_event_count ≡ old.total_event_count

-- What a topology refresh sets.
pub record SameDescription (r new : EntityRow) : Type 0 where
  pub friendly_name : new.friendly_name ≡ r.friendly_name
  pub domain : new.domain ≡ r.domain
  pub device_class : new.device_class ≡ r.device_class
  pub device_id : new.device_id ≡ r.device_id
  pub area_id : new.area_id ≡ r.area_id
  pub disabled : new.disabled ≡ r.disabled
  pub snapshot_id : new.snapshot_id ≡ r.snapshot_id
  pub last_seen_at : new.last_seen_at ≡ r.last_seen_at

SameHistory-refl : (r : EntityRow) → SameHistory r r
SameHistory-refl r = record {
  first_seen_at = refl;
  event_count_24h = refl;
  total_event_count = refl;
}

SameHistory-trans : {a b c : EntityRow} → SameHistory a b → SameHistory b c → SameHistory a c
SameHistory-trans p q = record {
  first_seen_at = q.first_seen_at ∙ p.first_seen_at;
  event_count_24h = q.event_count_24h ∙ p.event_count_24h;
  total_event_count = q.total_event_count ∙ p.total_event_count;
}

-- The last row for an entity in one call.
unfoldable pub last_row : String → List EntityRow → Option EntityRow
last_row k [] = none
last_row k (r ∷ rs) = elim (last_row k rs) [
  | some x ↦ some x
  | none ↦ if r.entity_id == k then some r else none
]

module _ (r : EntityRow) (t : Dict String EntityRow) where
  abbrev step : Dict String EntityRow
  step = alter r.entity_id (merge_entity r) t

  step-SameHistory :
      (k : String) (old : EntityRow)
      → get k t ≡ some old
      → (new : EntityRow) × (get k step ≡ some new) × SameHistory old new
  unfolding merge_entity
  step-SameHistory k old h = (
    (if r.entity_id == k then merge_entity r (some old) else old),
    ground (arith, get-alter r.entity_id k (merge_entity r) t, string_eq.same_iff r.entity_id k),
    record {
      first_seen_at = ground arith;
      event_count_24h = ground arith;
      total_event_count = ground arith;
    },
  )

  step-SameDescription :
      (k : String)
      → (r.entity_id == k) ≡ true
      → (new : EntityRow) × (get k step ≡ some new) × SameDescription r new
  unfolding merge_entity
  step-SameDescription k h = (
    merge_entity r (get r.entity_id t),
    ground (arith, get-alter r.entity_id k (merge_entity r) t),
    record {
      friendly_name = ground arith;
      domain = ground arith;
      device_class = ground arith;
      device_id = ground arith;
      area_id = ground arith;
      disabled = ground arith;
      snapshot_id = ground arith;
      last_seen_at = ground arith;
    },
  )

put_entities-SameHistory :
    (rs : List EntityRow) (t : Dict String EntityRow) (k : String) (old : EntityRow)
    → get k t ≡ some old
    → (new : EntityRow) × (get k (put_entities rs t) ≡ some new) × SameHistory old new
unfolding put_entities
put_entities-SameHistory [] t k old h = (old, h, SameHistory-refl old)
put_entities-SameHistory (r ∷ rs) t k old h =
    let (mid, stored, same) = step-SameHistory r t k old h in
    let (new, kept, rest) = put_entities-SameHistory rs (step r t) k mid stored in
    (new, kept, SameHistory-trans same rest)

put_entities_absent :
    (rs : List EntityRow) (t : Dict String EntityRow) (k : String)
    → last_row k rs ≡ none
    → get k (put_entities rs t) ≡ get k t
unfolding put_entities last_row
put_entities_absent [] t k h = refl
put_entities_absent (r ∷ rs) t k h =
    put_entities_absent rs (step r t) k (ground arith)
    ∙ ground (arith, get-alter r.entity_id k (merge_entity r) t)

put_entities-SameDescription :
    (rs : List EntityRow) (t : Dict String EntityRow) (k : String) (r : EntityRow)
    → last_row k rs ≡ some r
    → (new : EntityRow) × (get k (put_entities rs t) ≡ some new) × SameDescription r new
unfolding put_entities last_row
put_entities-SameDescription [] t k r h = cc
put_entities-SameDescription (s ∷ rs) t k r h = elim (Option-cases (last_row k rs)) [
  | inr (x, e) ↦ put_entities-SameDescription rs (step s t) k r (ground arith)
  | inl e ↦
      let hit : (s.entity_id == k) ≡ true = ground arith in
      let same : s ≡ r = ground arith in
      let (new, stored, d) = step-SameDescription s t k hit in
      (
        new,
        put_entities_absent rs (step s t) k e ∙ stored,
        subst (λ x. SameDescription x new) same d,
      )
]

-- Whatever the outcome of an upsert of entities, a row that is there keeps its first sighting and
-- both of its event counts.
pub upsert_entities-SameHistory :
    (rs : List EntityRow) (w : World) (k : String) (old : EntityRow)
    → get k w.db.entities ≡ some old
    → (new : EntityRow) × (get k (upsert_entities rs w).1.db.entities ≡ some new)
      × SameHistory old new
upsert_entities-SameHistory rs w k old h = elim (upsert_entities-Commits rs w) [
  | inl (_, kept) ↦ (old, rw kept h, SameHistory-refl old)
  | inr (_, done) ↦
      let (new, stored, same) = put_entities-SameHistory rs w.db.entities k old h in
      (new, rw done stored, same)
]

-- An upsert of entities that returns has stored, for each entity, what the last row for it says.
pub upsert_entities-SameDescription :
    (rs : List EntityRow) (w : World) (k : String) (r : EntityRow)
    → (upsert_entities rs w).0 ≡ ok tt
    → last_row k rs ≡ some r
    → (new : EntityRow) × (get k (upsert_entities rs w).1.db.entities ≡ some new)
      × SameDescription r new
upsert_entities-SameDescription rs w k r returned last = elim (upsert_entities-Commits rs w) [
  | inl (failed, _) ↦ cc
  | inr (_, done) ↦
      let (new, stored, d) = put_entities-SameDescription rs w.db.entities k r last in
      (new, rw done stored, d)
]
