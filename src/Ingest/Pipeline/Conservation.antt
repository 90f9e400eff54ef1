-- ===== src/Ingest/Pipeline/Conservation.antt =====
-- No event is lost, doubled or reordered by calls that return.
use mathlib.Core.List.{map-append}
use ai_home_assistant.Prelude.{
  ℕ, String, Bool, List, [], ◌∷◌, ◌++◌, map, ◌≡◌, refl, arith, ◌∙◌, ap, sym, inl, inr,
  if◌then◌else◌, leb, Bool-cases, length, append_assoc, append-nil, string_eq,
}
use ai_home_assistant.Store.Exec.{Db, ok, World}
use ai_home_assistant.Store.Dao.{increment_privacy_drop}
use ai_home_assistant.Store.Outcomes.{increment_privacy_drop-Commits}
use ai_home_assistant.Topology.EntityIndex.{EntityIndex}
use ai_home_assistant.Ingest.Batch.{HaEvent, Buffered, event_row, collect, empty_batch, now_bucket}
use ai_home_assistant.Ingest.Batch.Collect.{rows-collect}
use ai_home_assistant.Ingest.Batch.Writes.{
  history, event_of, history-write_batch, privacy_drops-write_batch,
}
use ai_home_assistant.Ingest.Pipeline.{
  State, write_buffer, commit_if_full, commit_locked, drop_hidden, enqueue, submit,
}

abbrev pub events_in : List Buffered → List HaEvent
events_in = map (λ b. b.0)

-- What was taken in, in order: the stored events, then the buffered ones.
abbrev pub taken_in : State → List HaEvent
taken_in s = history s.world.db.events ++ events_in s.buffer

pub events-rows :
    (idx : EntityIndex) (now : ℕ) (bs : List Buffered)
    → map event_of (map (event_row idx now) bs) ≡ events_in bs
unfolding event_of event_row
events-rows idx now [] = refl
events-rows idx now (b ∷ bs) = ap (◌∷◌ b.0) (events-rows idx now bs)

pub events-collect :
    (idx : EntityIndex) (now : ℕ) (bs : List Buffered)
    → map event_of (collect idx now bs empty_batch).rows ≡ events_in bs
events-collect idx now bs =
    ap (map event_of) (rows-collect idx now bs empty_batch) ∙ events-rows idx now bs

-- What a commit that returns does with the buffer `bs`.
pub record Stores (bs : List Buffered) (s t : State) : Type 0 where
  pub stored : history t.world.db.events ≡ history s.world.db.events ++ events_in bs
  pub emptied : t.buffer ≡ []
  pub same_hide : t.hide ≡ s.hide
  pub same_size : t.batch_size ≡ s.batch_size
  pub same_drops : t.world.db.privacy_drops ≡ s.world.db.privacy_drops

module _ (now : ℕ) where
  write_buffer-Stores :
      (bs : List Buffered) (s : State)
      → s.buffer ≡ bs
      → (write_buffer bs now s).0 ≡ ok tt
      → Stores bs s (write_buffer bs now s).1
  write_buffer-Stores [] s e h = record {
    stored = sym (append-nil (history s.world.db.events));
    emptied = e;
    same_hide = refl;
    same_size = refl;
    same_drops = refl;
  }
  write_buffer-Stores (b ∷ bs) s e h =
      let batch = collect s.index now (b ∷ bs) empty_batch in
      record {
        stored = elim (history-write_batch batch s.world) [
          | inl (bad, _) ↦ absurd (bad h)
          | inr (_, kept) ↦
              kept ∙ ap (◌++◌ (history s.world.db.events)) (events-collect s.index now (b ∷ bs))
        ];
        emptied = rw h;
        same_hide = rw h;
        same_size = rw h;
        same_drops = privacy_drops-write_batch batch s.world h;
      }

  pub commit_locked-Stores :
      (s : State) → (commit_locked now s).0 ≡ ok tt → Stores s.buffer s (commit_locked now s).1
  unfolding commit_locked
  commit_locked-Stores s h = write_buffer-Stores s.buffer s refl h

-- What `submit` adds to the events that were taken in: nothing, if the matcher hides the entity.
abbrev pub admitted : (String → Bool) → HaEvent → List HaEvent
admitted hide event = if hide event.entity_id then [] else event ∷ []

-- What a call leaves alone, beside the events that it takes in.
pub record Takes (new : List HaEvent) (s t : State) : Type 0 where
  pub events : taken_in t ≡ taken_in s ++ new
  pub same_hide : t.hide ≡ s.hide
  pub same_size : t.batch_size ≡ s.batch_size

pub Takes-trans :
    (xs ys : List HaEvent) {a b c : State} → Takes xs a b → Takes ys b c → Takes (xs ++ ys) a c
Takes-trans xs ys {a} p q = record {
  events = q.events ∙ ap (λ x. x ++ ys) p.events ∙ append_assoc (taken_in a) xs ys;
  same_hide = q.same_hide ∙ p.same_hide;
  same_size = q.same_size ∙ p.same_size;
}

pub drop-events :
    (hour by : ℕ) (w : World) → (increment_privacy_drop hour by w).1.db.events ≡ w.db.events
drop-events hour by w = elim (increment_privacy_drop-Commits hour by w) [
  | inl (_, same) ↦ ap (λ (x : Db). x.events) same
  | inr (_, done) ↦ ap (λ (x : Db). x.events) done
]

pub Takes-commit :
    (now : ℕ) (s : State) → (commit_locked now s).0 ≡ ok tt → Takes [] s (commit_locked now s).1
Takes-commit now s h =
    let c = commit_locked-Stores now s h in
    record {
      events = simp (c.stored, c.emptied, append-nil);
      same_hide = c.same_hide;
      same_size = c.same_size;
    }

module _ (event : HaEvent) (now mono : ℕ) (s : State) where
  pub taken_in-enqueue : taken_in (enqueue event mono s) ≡ taken_in s ++ event ∷ []
  unfolding enqueue
  taken_in-enqueue = simp (map-append, append_assoc)

  -- The two tests of the matcher, for a known and for an unknown entity, amount to one.
  pub submit_lem : submit event now mono s ≡ (
      if s.hide event.entity_id
      then drop_hidden now s
      else commit_if_full now (enqueue event mono s))
  unfolding submit
  submit_lem = ground arith

  Takes-drop_hidden : (drop_hidden now s).0 ≡ ok tt → Takes [] s (drop_hidden now s).1
  unfolding drop_hidden
  Takes-drop_hidden h = record {
    events =
        ap (λ x. history x ++ events_in s.buffer) (drop-events (now_bucket now) 1 s.world)
        ∙ sym (append-nil (taken_in s));
    same_hide = refl;
    same_size = refl;
  }

  Takes-enqueue : Takes (event ∷ []) s (enqueue event mono s)
  unfolding enqueue
  Takes-enqueue = record { events = taken_in-enqueue; same_hide = refl; same_size = refl }

  Takes-commit_if_full :
      (t : State)
      → (commit_if_full now t).0 ≡ ok tt
      → Takes (event ∷ []) s t
      → Takes (event ∷ []) s (commit_if_full now t).1
  Takes-commit_if_full t h taken = elim (Bool-cases (leb t.batch_size (length t.buffer))) [
    | inl full ↦ rw full (Takes-trans (event ∷ []) [] taken (Takes-commit now t (rw full at h)))
    | inr room ↦ rw room taken
  ]

  -- A `submit` that returns takes in the event exactly if the matcher does not hide its entity, at
  -- the end of what was taken in before: stored or buffered, in order, each once.
  pub submit-Takes :
      (submit event now mono s).0 ≡ ok tt
      → Takes (admitted s.hide event) s (submit event now mono s).1
  submit-Takes h = elim (Bool-cases (s.hide event.entity_id)) [
    | inl hidden ↦
        let e : submit event now mono s ≡ drop_hidden now s = submit_lem ∙ rw hidden in
        rw (e, hidden) (Takes-drop_hidden (rw e at h))
    | inr shown ↦
        let t = enqueue event mono s in
        let e : submit event now mono s ≡ commit_if_full now t = submit_lem ∙ rw shown in
        rw shown (rw e (Takes-commit_if_full t (rw e at h) Takes-enqueue))
  ]
