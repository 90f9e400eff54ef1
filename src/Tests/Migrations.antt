-- ===== src/Tests/Migrations.antt =====
-- A directory of migrations on small inputs.
use ai_home_assistant.Prelude.{ℕ, ◌+◌, some, List, [], ◌∷◌, ◌≡◌, refl, keep, arith, ◌↔◌}
use mathlib.Core.List.{Memᴰ}
use ai_home_assistant.Store.Migrations.Files.Directory.{IsFrom}
use ai_home_assistant.Store.Migrations.{Migration, Schema, apply_migrations}
use ai_home_assistant.Store.Migrations.Names.{file_version, name_le}
use ai_home_assistant.Store.Migrations.Files.{File, migrations_of}
use ai_home_assistant.Store.Migrations.Files.Pending.{
  IsIncreasing, IsDistinct, is_newer, run_all, apply_migrations-directory,
}

abbrev directory : List (File ℕ)
directory =
    ("010_rest.sql", (λ n. some (n + 10)) ∷ [])
    ∷ ("README.md", [])
    ∷ ("002_more.sql", (λ n. some (n + 2)) ∷ [])
    ∷ ("001_initial.sql", (λ n. some (n + 1)) ∷ [])
    ∷ []

abbrev first_only : Schema ℕ
first_only = record { tables = 1; version = 1 }

sorted_by_name :
    migrations_of directory
    ≡ record { version = 1; script = (λ n. some (n + 1)) ∷ [] }
      ∷ record { version = 2; script = (λ n. some (n + 2)) ∷ [] }
      ∷ record { version = 10; script = (λ n. some (n + 10)) ∷ [] }
      ∷ []
unfolding migrations_of file_version name_le
sorted_by_name = refl

distinct : IsDistinct (migrations_of directory)
distinct = rw sorted_by_name (
  ((λ h. omega (arith, h)), ((λ h. omega (arith, h)), tt)),
  (((λ h. omega (arith, h)), tt), (tt, tt)),
)

apply_migrations-directory_example :
    IsIncreasing (migrations_of directory)
    × ((m : Migration ℕ) → Memᴰ m (migrations_of directory) ↔ IsFrom directory m)
    × (apply_migrations (migrations_of directory) first_only
        ≡ run_all (keep (is_newer 1) (migrations_of directory)) first_only)
apply_migrations-directory_example = apply_migrations-directory directory first_only distinct
