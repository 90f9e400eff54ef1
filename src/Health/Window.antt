-- ===== src/Health/Window.antt =====
-- The rolling hour of src/ai_ha/health/metrics.py.
use ai_home_assistant.Prelude.{
  ℕ, ◌+◌, ◌≤◌, Bool, List, [], ◌∷◌, ◌++◌, ◌≡◌, refl, ap, ◌∙◌, arith, inl, inr, Bool-cases, leb, ltb,
  length, keep, count_if, All, append_assoc, append-nil,
}
use ai_home_assistant.Health.{HealthMetrics, expire, record_event, record_events, snapshot}

abbrev pub Sorted : List ℕ → Type 0
Sorted [] = Unit
Sorted (t ∷ ts) = All (λ u. t ≤ u) ts × Sorted ts

-- No more than an hour before `now`.
abbrev pub within : ℕ → ℕ → Bool
within now t = leb now (t + 3600000)

count-keep : (p : ℕ → Bool) (ts : List ℕ) → length (keep p ts) ≡ count_if p ts
count-keep p [] = refl
count-keep p (t ∷ ts) = ground (arith, count-keep p ts)

keep-later :
    (now t : ℕ) (ts : List ℕ) → now ≤ t + 3600000 → All (λ u. t ≤ u) ts → keep (within now) ts ≡ ts
keep-later now t [] h a = refl
keep-later now t (u ∷ us) h a = ground (arith, keep-later now t us h a.1, a.0)

expire-Sorted : (now : ℕ) (ts : List ℕ) → Sorted ts → expire now ts ≡ keep (within now) ts
unfolding expire
expire-Sorted now [] s = refl
expire-Sorted now (t ∷ ts) s = elim (Bool-cases (ltb (t + 3600000) now)) [
  | inl old ↦ ground (arith, expire-Sorted now ts s.1)
  | inr new ↦ let later = keep-later now t ts (ground arith) s.0 in ground arith
]

-- What expires at an earlier time is outside of the hour of a later one.
keep-expire :
    (now t : ℕ) (xs ys : List ℕ)
    → t ≤ now
    → keep (within now) (expire t xs ++ ys) ≡ keep (within now) (xs ++ ys)
unfolding expire
keep-expire now t [] ys h = refl
keep-expire now t (x ∷ xs) ys h = ground (arith, keep-expire now t xs ys h)

Sorted-expire : (t : ℕ) (xs ys : List ℕ) → Sorted (xs ++ ys) → Sorted (expire t xs ++ ys)
unfolding expire
Sorted-expire t [] ys s = s
Sorted-expire t (x ∷ xs) ys s = elim (Bool-cases (ltb (x + 3600000) t)) [
  | inl old ↦ rw old (Sorted-expire t xs ys s.1)
  | inr new ↦ rw new s
]

log-record_events :
    (ts : List ℕ) (m : HealthMetrics) (now : ℕ)
    → Sorted (m.event_log_recent ++ ts)
    → All (λ t. t ≤ now) ts
    → expire now (record_events ts m).event_log_recent
      ≡ keep (within now) (m.event_log_recent ++ ts)
unfolding record_events record_event
log-record_events [] m now s a =
    let log = m.event_log_recent in
    let s' : Sorted log = rw (append-nil log) at s in rw (append-nil log) (expire-Sorted now log s')
log-record_events (t ∷ ts) m now s a =
    let log = m.event_log_recent in
    let joined = append_assoc log (t ∷ []) ts in
    let s' : Sorted ((log ++ t ∷ []) ++ ts) = rw joined s in
    log-record_events ts (record_event t m) now (Sorted-expire t (log ++ t ∷ []) ts s') a.1
    ∙ keep-expire now t (log ++ t ∷ []) ts a.0
    ∙ ap (keep (within now)) joined

-- After any events are recorded in the order of their times, none of them later than the request,
-- the report counts those of the log's and the recorded times that are at most an hour older than
-- the request, whatever `record_event` has dropped in between.
pub snapshot-record_events :
    {Size : Type 0} (megabytes : ℕ → Size) (ts : List ℕ) (m : HealthMetrics) (now : ℕ)
    → Sorted (m.event_log_recent ++ ts)
    → All (λ t. t ≤ now) ts
    → (snapshot megabytes now (record_events ts m)).0.events_per_hour
      ≡ count_if (within now) (m.event_log_recent ++ ts)
unfolding snapshot
snapshot-record_events megabytes ts m now s a =
    ap length (log-record_events ts m now s a) ∙ count-keep (within now) (m.event_log_recent ++ ts)
