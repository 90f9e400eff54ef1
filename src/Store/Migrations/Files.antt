-- ===== src/Store/Migrations/Files.antt =====
-- The files of a directory of migrations, as `Database._apply_migrations` of
-- src/ai_ha/store/db.py takes them: those whose names match, in the order of their names.
pub mod Directory
pub mod Pending
use ai_home_assistant.Prelude.{ℕ, String, Option, none, some, Bool, List, [], ◌∷◌, if◌then◌else◌}
use ai_home_assistant.Store.Migrations.{Migration}
use ai_home_assistant.Store.Migrations.Names.{file_version, name_le}

-- The name of a file, and the statements of its text.
abbrev pub File : Type 0 → Type 0
File Tables = String × List (Tables → Option Tables)

module _ {Tables : Type 0} where
  unfoldable pub insert_file : File Tables → List (File Tables) → List (File Tables)
  insert_file x [] = x ∷ []
  insert_file x (y ∷ ys) =
      let rest = insert_file x ys in if name_le x.0 y.0 then x ∷ y ∷ ys else y ∷ rest

  unfoldable pub sort_files : List (File Tables) → List (File Tables)
  unfolding insert_file
  sort_files [] = []
  sort_files (x ∷ xs) = insert_file x (sort_files xs)

  abbrev pub numbered : Option ℕ → File Tables → List (Migration Tables) → List (Migration Tables)
  numbered none f ms = ms
  numbered (some v) f ms = record { version = v; script = f.1 } ∷ ms

  unfoldable pub matching : List (File Tables) → List (Migration Tables)
  unfolding file_version
  matching [] = []
  matching (f ∷ fs) = numbered (file_version f.0) f (matching fs)

  -- The files whose names match, in the order of their names.
  unfoldable pub migrations_of : List (File Tables) → List (Migration Tables)
  unfolding sort_files matching
  migrations_of fs = matching (sort_files fs)
