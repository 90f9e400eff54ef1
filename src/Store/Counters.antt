-- ===== src/Store/Counters.antt =====
-- The hourly counters of src/ai_ha/store/dao.py: what an increment adds, and what the reads of the
-- last 24 hours select.
use ai_home_assistant.Prelude.{
  ℕ, ◌+◌, String, none, some, [], ◌∷◌, ◌≡◌, arith, inl, inr, if◌then◌else◌, ◌==◌, string_eq, nat_eq,
  pair_eq, Eq, ltb,
}
use ai_home_assistant.Prelude.Dict.{Dict, get, alter, get-alter, get-keep, total}
use ai_home_assistant.Store.Exec.{ok, World}
use ai_home_assistant.Store.Dao.{
  added, increment_counter, get_counters_24h, increment_privacy_drop, get_privacy_drops_24h,
}
use ai_home_assistant.Store.Outcomes.{increment_counter-Commits, increment_privacy_drop-Commits}

pub total-alter {ℓ} :
    {K : Type ℓ} ⦃e : Eq K⦄ (k : K) (n : ℕ) (d : Dict K ℕ)
    → total (alter k (added n) d) ≡ total d + n
unfolding alter
total-alter k n [] = omega arith
total-alter k n ((j, m) ∷ d) = ground (arith, total-alter k n d)

-- After an increment that returns, the counters of the last 24 hours are the earlier ones with `by`
-- added at the key, and hold no bucket that is 24 hours old or older.
pub get_counters_24h-increment :
    (area : String) (hour by now : ℕ) (k : String × ℕ) (w : World)
    → (increment_counter area hour by w).0 ≡ ok tt
    → get k (get_counters_24h now (increment_counter area hour by w).1.db) ≡ (
        if ltb now (k.1 + 24)
        then (if (area, hour) == k
            then some (added by (get (area, hour) w.db.counters))
            else get k w.db.counters)
        else none)
unfolding get_counters_24h
get_counters_24h-increment area hour by now k w returned =
    elim (increment_counter-Commits area hour by w) [
      | inl (failed, _) ↦ cc
      | inr (_, done) ↦ rw (done, get-keep (λ x. ltb now (x.1 + 24)) k, get-alter)
    ]

-- After an increment of the privacy drops that returns, the drops of the last 24 hours are the
-- earlier ones with `by` added at the hour, and hold no hour that is 24 hours old or older.
pub get_privacy_drops_24h-increment :
    (hour by now k : ℕ) (w : World)
    → (increment_privacy_drop hour by w).0 ≡ ok tt
    → get k (get_privacy_drops_24h now (increment_privacy_drop hour by w).1.db) ≡ (
        if ltb now (k + 24)
        then (if hour == k
            then some (added by (get hour w.db.privacy_drops))
            else get k w.db.privacy_drops)
        else none)
unfolding get_privacy_drops_24h
get_privacy_drops_24h-increment hour by now k w returned =
    elim (increment_privacy_drop-Commits hour by w) [
      | inl (failed, _) ↦ cc
      | inr (_, done) ↦ rw (done, get-keep (λ x. ltb now (x + 24)) k, get-alter)
    ]
