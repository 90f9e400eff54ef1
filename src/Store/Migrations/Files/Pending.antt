-- ===== src/Store/Migrations/Files/Pending.antt =====
-- Which files of the directory src/ai_ha/store/migrations an opened database runs.
use ai_home_assistant.Prelude.{
  ℕ, ◌<◌, ◌≤◌, some, Bool, true, false, List, [], ◌∷◌, ◌≡◌, refl, ◌≢◌, ap, sym, ◌∙◌, inl, inr, ◌↔◌,
  arith, All, All-weaken, keep, ltb, leb, ltb→lt, Bool-cases, Option-cases,
}
use ai_home_assistant.Store.Migrations.{
  Migration, Schema, Migrated, migrated, executescript, after_script, apply_migrations,
}
use ai_home_assistant.Store.Migrations.Reopen.{Ran-cases}
use ai_home_assistant.Store.Migrations.Names.{file_version, name_le}
use ai_home_assistant.Store.Migrations.Names.Order.{name_le_total, name_le_trans, version-name_le}
use mathlib.Core.List.{Memᴰ}
use ai_home_assistant.Store.Migrations.Files.Directory.{IsFrom, mem-migrations_of}
use ai_home_assistant.Store.Migrations.Files.{
  File, insert_file, sort_files, matching, migrations_of,
}

module _ {Tables : Type 0} where
  -- Every script in turn, whatever the version, up to the first that fails.
  unfoldable pub run_all : List (Migration Tables) → Schema Tables → Migrated Tables
  run_all [] d = migrated d
  run_all (m ∷ ms) d =
      let later = run_all ms in
      after_script (executescript m.script d.tables) m.version d.version later

  abbrev pub is_newer : ℕ → Migration Tables → Bool
  is_newer v m = ltb v m.version

  abbrev pub IsIncreasing : List (Migration Tables) → Type 0
  IsIncreasing [] = Unit
  IsIncreasing (m ∷ ms) = All (λ n. m.version < n.version) ms × IsIncreasing ms

  keep-newer :
      (v : ℕ) (ms : List (Migration Tables))
      → All (λ n. v < n.version) ms
      → keep (is_newer v) ms ≡ ms
  keep-newer v [] h = refl
  keep-newer v (m ∷ ms) (h, t) = ground (arith, keep-newer v ms t)

  apply_migrations-pending :
      (ms : List (Migration Tables)) (d : Schema Tables)
      → IsIncreasing ms
      → apply_migrations ms d ≡ run_all (keep (is_newer d.version) ms) d
  unfolding apply_migrations run_all
  apply_migrations-pending [] d h = refl
  apply_migrations-pending (m ∷ ms) d (above, later) = elim (Bool-cases (ltb d.version m.version)) [
    | inl new ↦
        let below : leb m.version d.version ≡ false = ground arith in
        rw (new, below)
          (elim (Ran-cases (executescript m.script d.tables)) [
            | inl (t, ran) ↦ rw ran (
                let d' : Schema Tables = record { tables = t; version = m.version } in
                let wider =
                  All-weaken ms
                    (λ n h. let new = ltb→lt d.version m.version new in omega (arith, h, new))
                    above in
                apply_migrations-pending ms d' later
                ∙ ap (λ k. run_all k d')
                    (keep-newer m.version ms above ∙ sym (keep-newer d.version ms wider)))
            | inr (t, ran) ↦ rw ran refl
          ])
    | inr old ↦
        let below : leb m.version d.version ≡ true = ground arith in
        rw (old, below) (apply_migrations-pending ms d later)
  ]

  -- The files in the order of their names.
  abbrev IsSorted : List (File Tables) → Type 0
  IsSorted [] = Unit
  IsSorted (x ∷ xs) = All (λ y. name_le x.0 y.0 ≡ true) xs × IsSorted xs

  All-insert_file :
      (P : File Tables → Type 0) (x : File Tables) (ys : List (File Tables))
      → P x
      → All P ys
      → All P (insert_file x ys)
  unfolding insert_file
  All-insert_file P x [] h k = (h, tt)
  All-insert_file P x (y ∷ ys) h (k, ks) = elim (Bool-cases (name_le x.0 y.0)) [
    | inl here ↦ rw here (h, (k, ks))
    | inr later ↦ rw later (k, All-insert_file P x ys h ks)
  ]

  IsSorted-insert_file :
      (x : File Tables) (ys : List (File Tables)) → IsSorted ys → IsSorted (insert_file x ys)
  unfolding insert_file
  IsSorted-insert_file x [] h = (tt, tt)
  IsSorted-insert_file x (y ∷ ys) (above, h) = elim (Bool-cases (name_le x.0 y.0)) [
    | inl here ↦
        rw here ((here, All-weaken ys (λ z k. name_le_trans x.0 y.0 z.0 here k) above), (above, h))
    | inr later ↦ rw later (
      All-insert_file (λ z. name_le y.0 z.0 ≡ true) x ys (name_le_total x.0 y.0 later) above,
      IsSorted-insert_file x ys h,
    )
  ]

  IsSorted-sort_files : (fs : List (File Tables)) → IsSorted (sort_files fs)
  unfolding sort_files
  IsSorted-sort_files [] = tt
  IsSorted-sort_files (f ∷ fs) = IsSorted-insert_file f (sort_files fs) (IsSorted-sort_files fs)

  -- No two migrations have one number.
  abbrev pub IsDistinct : List (Migration Tables) → Type 0
  IsDistinct [] = Unit
  IsDistinct (m ∷ ms) = All (λ n. m.version ≢ n.version) ms × IsDistinct ms

  matching-above :
      (f : File Tables) (v : ℕ) (gs : List (File Tables))
      → file_version f.0 ≡ some v
      → All (λ g. name_le f.0 g.0 ≡ true) gs
      → All (λ n. v ≤ n.version) (matching gs)
  unfolding matching
  matching-above f v [] e h = tt
  matching-above f v (g ∷ gs) e (h, hs) = elim (Option-cases (file_version g.0)) [
    | inl other ↦ rw other (matching-above f v gs e hs)
    | inr (w, k) ↦ rw k (version-name_le f.0 g.0 v w e k h, matching-above f v gs e hs)
  ]

  above-strict :
      (v : ℕ) (ms : List (Migration Tables))
      → All (λ n. v ≤ n.version) ms
      → All (λ n. v ≢ n.version) ms
      → All (λ n. v < n.version) ms
  above-strict v [] h k = tt
  above-strict v (m ∷ ms) (h, hs) (k, ks) = (omega arith, above-strict v ms hs ks)

  IsIncreasing-matching :
      (fs : List (File Tables))
      → IsSorted fs
      → IsDistinct (matching fs)
      → IsIncreasing (matching fs)
  unfolding matching
  IsIncreasing-matching [] h d = tt
  IsIncreasing-matching (f ∷ fs) (above, h) d = elim (Option-cases (file_version f.0)) [
    | inl other ↦ rw other (IsIncreasing-matching fs h (rw other at d))
    | inr (v, e) ↦
        let (apart, later) = rw e at d in
        rw e (
          above-strict v (matching fs) (matching-above f v fs e above) apart,
          IsIncreasing-matching fs h later,
        )
  ]

  IsIncreasing-migrations_of :
      (fs : List (File Tables)) → IsDistinct (migrations_of fs) → IsIncreasing (migrations_of fs)
  unfolding migrations_of
  IsIncreasing-migrations_of fs apart =
      IsIncreasing-matching (sort_files fs) (IsSorted-sort_files fs) apart

  -- Where no two files that match have one number: opening a database runs exactly the files whose
  -- number is greater than the version it has, in the order of their names, up to the first that
  -- fails, whatever the order in which the directory lists them. The numbers increase in that order.
  -- A migration is among them exactly when some file of the directory has its script as its text and
  -- has a name of three digits, its number, an underscore and an end of ".sql".
  pub apply_migrations-directory :
      (fs : List (File Tables)) (d : Schema Tables)
      → IsDistinct (migrations_of fs)
      → IsIncreasing (migrations_of fs)
        × ((m : Migration Tables) → Memᴰ m (migrations_of fs) ↔ IsFrom fs m)
        × (apply_migrations (migrations_of fs) d
            ≡ run_all (keep (is_newer d.version) (migrations_of fs)) d)
  apply_migrations-directory fs d apart =
      let rises = IsIncreasing-migrations_of fs apart in
      (rises, mem-migrations_of fs, apply_migrations-pending (migrations_of fs) d rises)
