-- ===== src/Store/Pages.antt =====
-- The pages of `list_events` of src/ai_ha/store/dao.py: events by descending id, and what a cursor
-- that is an event id selects.
use ai_home_assistant.Prelude.{
  ℕ, zero, suc, ◌+◌, ◌≤◌, ◌<◌, some, Bool, true, ◌&&◌, List, [], ◌∷◌, ◌≡◌, refl, arith, inl, inr,
  Bool-cases, keep, take, drop, last?, lt→ltb, ◌∙◌, ap, All,
}
use ai_home_assistant.Prelude.Int.{pos, below}
use ai_home_assistant.Store.Rows.{EventRow}
use ai_home_assistant.Store.Exec.{Db, World}
use ai_home_assistant.Store.Dao.{
  EventQuery, event_matches, row_matches, select_events, append_events, insert_events,
}
use ai_home_assistant.Store.Outcomes.{insert_events-Commits}

abbrev Numbered : Type 0
Numbered = ℕ × EventRow

-- The ids fall strictly, from below `bound`.
abbrev pub Descends : ℕ → List Numbered → Type 0
Descends bound [] = Unit
Descends bound (e ∷ es) = (e.0 < bound) × Descends e.0 es

-- The event table as the program keeps it: ids given in order, none above the counter.
abbrev pub IsNumbered : Db → Type 0
IsNumbered db = Descends (db.event_seq + 1) db.events

append_events-IsNumbered :
    (rs : List EventRow) (db : Db) → IsNumbered db → IsNumbered (append_events rs db)
unfolding append_events
append_events-IsNumbered [] db h = h
append_events-IsNumbered (r ∷ rs) db h =
    append_events-IsNumbered rs
      (record db { events = (db.event_seq + 1, r) ∷ db.events; event_seq = db.event_seq + 1 })
      (omega arith, h)

Descends-weaken : (es : List Numbered) (a b : ℕ) → a ≤ b → Descends a es → Descends b es
Descends-weaken [] a b h d = tt
Descends-weaken (e ∷ es) a b h d = (omega arith, d.1)

Descends-keep :
    (p : Numbered → Bool) (es : List Numbered) (b : ℕ) → Descends b es → Descends b (keep p es)
Descends-keep p [] b d = tt
Descends-keep p (e ∷ es) b d = elim (Bool-cases (p e)) [
  | inl t ↦ rw t (d.0, Descends-keep p es e.0 d.1)
  | inr f ↦ rw f (Descends-weaken (keep p es) e.0 b (omega arith) (Descends-keep p es e.0 d.1))
]

abbrev older : ℕ → Numbered → Bool
older c e = below e.0 (pos c)

keep-older_all : (es : List Numbered) (b c : ℕ) → Descends b es → b ≤ c → keep (older c) es ≡ es
keep-older_all [] b c d h = refl
keep-older_all (e ∷ es) b c d h =
    let ih = keep-older_all es e.0 c d.1 (omega arith) in rw (lt→ltb e.0 c (omega arith), ih)

last-below :
    (n : ℕ) (es : List Numbered) (b : ℕ) (x : Numbered)
    → Descends b es
    → last? (take n es) ≡ some x
    → x.0 < b
last-below zero es b x d h = cc
last-below (suc n) [] b x d h = cc
last-below (suc zero) (e ∷ es) b x d h = ground arith
last-below (suc (suc n)) (e ∷ []) b x d h = ground arith
last-below (suc (suc n)) (e ∷ f ∷ es) b x d h =
    let ih = last-below (suc n) (f ∷ es) e.0 x d.1 h in omega arith

-- What is older than the last row of a page is what follows the page.
keep-older_last :
    (n : ℕ) (es : List Numbered) (b : ℕ) (x : Numbered)
    → Descends b es
    → last? (take n es) ≡ some x
    → keep (older x.0) es ≡ drop n es
keep-older_last zero es b x d h = cc
keep-older_last (suc n) [] b x d h = cc
keep-older_last (suc zero) (e ∷ es) b x d h = ground (arith, keep-older_all es e.0 x.0 d.1)
keep-older_last (suc (suc n)) (e ∷ []) b x d h = ground arith
keep-older_last (suc (suc n)) (e ∷ f ∷ es) b x d h =
    ground
      (arith, last-below (suc n) (f ∷ es) e.0 x d.1 h, keep-older_last (suc n) (f ∷ es) e.0 x d.1 h)

keep-keep :
    (p r s : Numbered → Bool) (es : List Numbered)
    → ((e : Numbered) → s e ≡ (p e && r e))
    → keep s es ≡ keep r (keep p es)
keep-keep p r s [] h = refl
keep-keep p r s (e ∷ es) h = ground (arith, h e, keep-keep p r s es h)

-- A row of a page passed the test that selected the page.
last-keep :
    (p : Numbered → Bool) (n : ℕ) (es : List Numbered) (x : Numbered)
    → All (λ e. p e ≡ true) es
    → last? (take n es) ≡ some x
    → p x ≡ true
last-keep p zero es x a h = cc
last-keep p (suc n) [] x a h = cc
last-keep p (suc zero) (e ∷ es) x a h = ground arith
last-keep p (suc (suc n)) (e ∷ []) x a h = ground arith
last-keep p (suc (suc n)) (e ∷ f ∷ es) x a h = last-keep p (suc n) (f ∷ es) x a.1 h

All-keep : (p : Numbered → Bool) (es : List Numbered) → All (λ e. p e ≡ true) (keep p es)
All-keep p [] = tt
All-keep p (e ∷ es) = elim (Bool-cases (p e)) [
  | inl t ↦ rw t (t, All-keep p es)
  | inr f ↦ rw f (All-keep p es)
]

-- The query for the page after the row `x`.
abbrev pub after : EventQuery → Numbered → EventQuery
after q x = record q { cursor = some (pos x.0) }

row_matches-after :
    (q : EventQuery) (x e : Numbered)
    → row_matches q x ≡ true
    → row_matches (after q x) e ≡ (row_matches q e && older x.0 e)
unfolding row_matches event_matches
row_matches-after q x e h = ground arith

module _ (q : EventQuery) (n : ℕ) (db : Db) (ordered : IsNumbered db) where
  -- The ids of a page fall strictly.
  pub select_events-Descends : Descends (db.event_seq + 1) (keep (row_matches q) db.events)
  select_events-Descends = Descends-keep (row_matches q) db.events (db.event_seq + 1) ordered

  -- A cursor that is the id of a page's last row selects the rows that follow the page: all that
  -- the query matches, none twice and none left out.
  pub select_events-after :
      (x : Numbered)
      → last? (select_events q n db) ≡ some x
      → select_events (after q x) n db ≡ take n (drop n (keep (row_matches q) db.events))
  unfolding select_events
  select_events-after x h =
      let matched = last-keep (row_matches q) n _ x (All-keep (row_matches q) db.events) h in
      let split =
        keep-keep (row_matches q) (older x.0) (row_matches (after q x)) db.events
          (λ e. row_matches-after q x e matched) in
      let rest = keep-older_last n _ (db.event_seq + 1) x select_events-Descends h in
      ap (take n) (split ∙ rest)

-- Inserting events, whatever the outcome, keeps the table numbered: its ids fall strictly from the
-- newest event on, and none is above the counter of the ids given.
pub insert_events-IsNumbered :
    (rs : List EventRow) (w : World) → IsNumbered w.db → IsNumbered (insert_events rs w).1.db
insert_events-IsNumbered rs w h = elim (insert_events-Commits rs w) [
  | inl (_, kept) ↦ rw kept h
  | inr (_, done) ↦ rw done (append_events-IsNumbered rs w.db h)
]
