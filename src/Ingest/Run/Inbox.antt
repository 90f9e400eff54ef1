-- ===== src/Ingest/Run/Inbox.antt =====
-- What the pipeline of src/ai_ha/ingest/pipeline.py promises, without its buffer, batches, table and
-- background task: a log of the events that are not hidden, and a count by hour of those that are.
use mathlib.Core.Path.{fun_ext}
use ai_home_assistant.Prelude.{
  ℕ, ◌+◌, String, Bool, leb, length, List, [], ◌∷◌, ◌++◌, ◌≡◌, refl, ◌∙◌, ap, arith, inl, inr,
  if◌then◌else◌, Bool-cases, append-nil, ◌==◌, nat_eq, eq_of_beq,
}
use ai_home_assistant.Prelude.Dict.{get, alter, get-alter}
use ai_home_assistant.Store.Exec.{Db, ok}
use ai_home_assistant.Store.Dao.{added, increment_privacy_drop}
use ai_home_assistant.Store.Outcomes.{increment_privacy_drop-Commits, Commits-ok}
use ai_home_assistant.Ingest.Batch.{HaEvent, now_bucket}
use ai_home_assistant.Ingest.Batch.Writes.{count_at}
use ai_home_assistant.Ingest.Pipeline.{
  State, commit_if_full, commit_locked, drop_hidden, enqueue, submit, periodic_flush,
}
use ai_home_assistant.Ingest.Pipeline.Conservation.{
  taken_in, Takes, Takes-commit, submit-Takes, submit_lem, commit_locked-Stores,
}
use ai_home_assistant.Ingest.Run.{Call, submit_call, tick, flush, reload, rebuild, run}
use ai_home_assistant.Ingest.Run.Delivery.{
  IsSound, commit_locked-Sound, drop_hidden-Sound, submit-Sound, periodic_flush_cases,
  Takes-periodic_flush,
}

pub record Inbox : Type 0 where
  pub hide : String → Bool
  pub log : List HaEvent
  pub drops : ℕ → ℕ

abbrev pub one_more : ℕ → (ℕ → ℕ) → ℕ → ℕ
one_more hour drops h = if hour == h then drops h + 1 else drops h

-- An event goes to the log, or counts as a drop of the current hour.
unfoldable pub receive : HaEvent → ℕ → Inbox → Inbox
receive event now i =
    if i.hide event.entity_id
    then record i { drops = one_more (now_bucket now) i.drops }
    else record i { log = i.log ++ event ∷ [] }

-- Only submissions and reloads can be seen.
unfoldable pub replay : List Call → Inbox → Inbox
replay [] i = i
replay (submit_call event now mono ∷ cs) i = replay cs (receive event now i)
replay (tick now mono ∷ cs) i = replay cs i
replay (flush now ∷ cs) i = replay cs i
replay (reload hide ∷ cs) i = replay cs (record i { hide = hide })
replay (rebuild index ∷ cs) i = replay cs i

abbrev pub drops_of : Db → ℕ → ℕ
drops_of db hour = count_at (get hour db.privacy_drops)

abbrev pub view : State → Inbox
view s = record { hide = s.hide; log = taken_in s; drops = drops_of s.world.db }

view-eq :
    (s : State) (i : Inbox)
    → s.hide ≡ i.hide
    → taken_in s ≡ i.log
    → drops_of s.world.db ≡ i.drops
    → view s ≡ i
view-eq s i h l d = λ k. record { hide = h k; log = l k; drops = d k }

count_at-added :
    (hour h : ℕ) (db : Db)
    → count_at (get h (alter hour (added 1) db.privacy_drops)) ≡ one_more hour (drops_of db) h
count_at-added hour h db = rw get-alter (elim (Bool-cases (hour == h)) [
  | inl same ↦ let path : hour ≡ h = eq_of_beq hour h same in rw path (ground arith)
  | inr other ↦ rw other
])

drops-drop_hidden :
    (now : ℕ) (s : State)
    → (drop_hidden now s).0 ≡ ok tt
    → drops_of (drop_hidden now s).1.world.db ≡ one_more (now_bucket now) (drops_of s.world.db)
unfolding drop_hidden
drops-drop_hidden now s h =
    let hour = now_bucket now in
    let done =
      Commits-ok (increment_privacy_drop hour 1) s.world _
        (increment_privacy_drop-Commits hour 1 s.world) h in
    fun_ext λ j. ap (λ (db : Db). drops_of db j) done ∙ count_at-added hour j s.world.db

drops-commit :
    (now : ℕ) (s : State)
    → IsSound s
    → drops_of (commit_locked now s).1.world.db ≡ drops_of s.world.db
drops-commit now s h =
    let c = commit_locked-Stores now s (commit_locked-Sound now s h).0 in
    ap (λ d hour. count_at (get hour d)) c.same_drops

drops-commit_if_full :
    (now : ℕ) (s : State)
    → IsSound s
    → drops_of (commit_if_full now s).1.world.db ≡ drops_of s.world.db
drops-commit_if_full now s h = elim (Bool-cases (leb s.batch_size (length s.buffer))) [
  | inl full ↦ rw full (drops-commit now s h)
  | inr room ↦ rw room
]

module _ (event : HaEvent) (now mono : ℕ) (s : State) (h : IsSound s) where
  abbrev after : State
  after = (submit event now mono s).1

  view-submit : view after ≡ receive event now (view s)
  unfolding receive
  view-submit =
      let taken = submit-Takes event now mono s (submit-Sound event now mono s h).0 in
      elim (Bool-cases (s.hide event.entity_id)) [
        | inl hidden ↦
            let whole : submit event now mono s ≡ drop_hidden now s =
              submit_lem event now mono s ∙ rw hidden in
            let e : after ≡ (drop_hidden now s).1 = ap (λ o. o.1) whole in
            let none_new : taken_in after ≡ taken_in s =
              rw hidden at taken.events ∙ append-nil (taken_in s) in
            let dropped : drops_of after.world.db
                ≡ one_more (now_bucket now) (drops_of s.world.db) =
              ap (λ t. drops_of t.world.db) e
              ∙ drops-drop_hidden now s (drop_hidden-Sound now s h).0 in
            rw hidden (
              view-eq after
                (record (view s) { drops = one_more (now_bucket now) (drops_of s.world.db) })
                taken.same_hide none_new dropped)
        | inr shown ↦
            let t = enqueue event mono s in
            let whole : submit event now mono s ≡ commit_if_full now t =
              submit_lem event now mono s ∙ rw shown in
            let e : after ≡ (commit_if_full now t).1 = ap (λ o. o.1) whole in
            let one_new : taken_in after ≡ taken_in s ++ event ∷ [] = rw shown at taken.events in
            let same : drops_of after.world.db ≡ drops_of s.world.db =
              ap (λ t. drops_of t.world.db) e
              ∙ drops-commit_if_full now t (unfold enqueue in h)
              ∙ (unfold enqueue in refl) in
            rw shown (
              view-eq after (record (view s) { log = taken_in s ++ event ∷ [] }) taken.same_hide
                one_new same)
      ]

-- A call that takes nothing in cannot be seen.
view-quiet :
    (s t : State) → Takes [] s t → drops_of t.world.db ≡ drops_of s.world.db → view t ≡ view s
view-quiet s t k d = view-eq t (view s) k.same_hide (k.events ∙ append-nil (taken_in s)) d

view-commit : (now : ℕ) (s : State) → IsSound s → view (commit_locked now s).1 ≡ view s
view-commit now s h =
    view-quiet s (commit_locked now s).1 (Takes-commit now s (commit_locked-Sound now s h).0)
      (drops-commit now s h)

view-periodic_flush :
    (now mono : ℕ) (s : State) → IsSound s → view (periodic_flush now mono s) ≡ view s
view-periodic_flush now mono s h = elim (periodic_flush_cases now mono s h) [
  | inl e ↦ rw e
  | inr e ↦ rw e (view-commit now s h)
]

-- Where no write fails, a run of the pipeline returns, and what can be seen of it is what the same
-- calls make of the abstract inbox: the log is the stored events and then the buffered ones, and
-- the drops are the rows of the privacy table.
pub run_refines :
    (cs : List Call) (s : State)
    → IsSound s
    → ((run cs s).0 ≡ ok tt) × (view (run cs s).1 ≡ replay cs (view s))
unfolding run replay
run_refines [] s h = (refl, refl)
run_refines (submit_call event now mono ∷ cs) s h =
    let (returned, kept) = submit-Sound event now mono s h in
    let t = (submit event now mono s).1 in
    rw (returned, ← (view-submit event now mono s h)) (run_refines cs t kept)
run_refines (tick now mono ∷ cs) s h =
    let (_, kept) = Takes-periodic_flush now mono s h in
    let t = periodic_flush now mono s in
    rw (← (view-periodic_flush now mono s h)) (run_refines cs t kept)
run_refines (flush now ∷ cs) s h =
    let (returned, kept) = commit_locked-Sound now s h in
    rw (returned, ← (view-commit now s h)) (run_refines cs (commit_locked now s).1 kept)
run_refines (reload hide ∷ cs) s h =
    run_refines cs (record s { pipeline = record s.pipeline { hide = hide } }) h
run_refines (rebuild index ∷ cs) s h =
    run_refines cs (record s { pipeline = record s.pipeline { index = index } }) h
