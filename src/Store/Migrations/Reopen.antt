-- ===== src/Store/Migrations/Reopen.antt =====
-- Opening a database again, for src/ai_ha/store/db.py.
use ai_home_assistant.Prelude.{
  ℕ, ◌≤◌, ◌<◌, Option, none, true, false, List, [], ◌∷◌, ◌++◌, leb, leb→le, Option-cases,
  Bool-cases, inl, inr, ◌⊎◌, ◌≡◌, refl, ap, ◌∙◌, arith, All,
}
use ai_home_assistant.Store.Migrations.{
  Migration, Schema, migrated, migration_error, Ran, finished, stopped_at, executescript,
  apply_migrations,
}

module _ {Tables : Type 0} where
  pub Ran-cases :
      (r : Ran Tables) → ((t : Tables) × (r ≡ finished t)) ⊎ ((t : Tables) × (r ≡ stopped_at t))
  Ran-cases (finished t) = inl (t, refl)
  Ran-cases (stopped_at t) = inr (t, refl)

  abbrev UpTo : ℕ → List (Migration Tables) → Type 0
  UpTo v = All (λ m. m.version ≤ v)

  skipped :
      (ms : List (Migration Tables)) (d : Schema Tables)
      → UpTo d.version ms
      → apply_migrations ms d ≡ migrated d
  unfolding apply_migrations
  skipped [] d h = refl
  skipped (m ∷ ms) d h =
      let skip : leb m.version d.version ≡ true = ground (arith, h.0) in rw skip (skipped ms d h.1)

  covered :
      (ms : List (Migration Tables)) (d d' : Schema Tables)
      → apply_migrations ms d ≡ migrated d'
      → (d.version ≤ d'.version) × UpTo d'.version ms
  unfolding apply_migrations
  covered [] d d' h = let same : d ≡ d' = cc in (rw same (omega arith), tt)
  covered (m ∷ ms) d d' h = elim (Bool-cases (leb m.version d.version)) [
    | inl skip ↦
        let (grows, later) = covered ms d d' (rw skip at h) in
        let low = leb→le m.version d.version skip in (grows, (omega arith, later))
    | inr go ↦ elim (Ran-cases (executescript m.script d.tables)) [
      | inl (t, ran) ↦
          let (grows, later) =
            covered ms (record { tables = t; version = m.version }) d' (rw (go, ran) at h) in
          (ground (arith, grows), (grows, later))
      | inr (t, ran) ↦ let broken = rw (go, ran) at h in cc
    ]
  ]

  -- A database whose migrations have all succeeded is opened again without running any of them: the
  -- tables and the version stay as they are.
  pub apply_migrations_again :
      (ms : List (Migration Tables)) (d d' : Schema Tables)
      → apply_migrations ms d ≡ migrated d'
      → apply_migrations ms d' ≡ migrated d'
  apply_migrations_again ms d d' h = skipped ms d' (covered ms d d' h).1

  executescript_stops :
      (done rest : List (Tables → Option Tables)) (statement : Tables → Option Tables)
      (u t : Tables)
      → executescript done u ≡ finished t
      → statement t ≡ none
      → executescript (done ++ statement ∷ rest) u ≡ stopped_at t
  unfolding executescript
  executescript_stops [] rest statement u t e bad = let same : u ≡ t = cc in rw (same, bad) refl
  executescript_stops (s ∷ ss) rest statement u t e bad = elim (Option-cases (s u)) [
    | inl failed ↦ let broken = rw failed at e in cc
    | inr (u', fine) ↦ rw fine (executescript_stops ss rest statement u' t (rw fine at e) bad)
  ]

  -- A migration that is due, and whose script fails at a statement, ends the opening with an error.
  -- The version stays, but what the statements before the failing one did stays too.
  pub apply_migrations_partial :
      (m : Migration Tables) (ms : List (Migration Tables)) (d : Schema Tables)
      (done rest : List (Tables → Option Tables)) (statement : Tables → Option Tables) (t : Tables)
      → d.version < m.version
      → m.script ≡ done ++ statement ∷ rest
      → executescript done d.tables ≡ finished t
      → statement t ≡ none
      → apply_migrations (m ∷ ms) d ≡ migration_error (record { tables = t; version = d.version })
  unfolding apply_migrations
  apply_migrations_partial m ms d done rest statement t due script ran bad =
      let go : leb m.version d.version ≡ false = ground arith in
      let stopped : executescript m.script d.tables ≡ stopped_at t =
        ap (λ s. executescript s d.tables) script
        ∙ executescript_stops done rest statement d.tables t ran bad in
      rw (go, stopped) refl
