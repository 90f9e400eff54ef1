-- ===== src/Store/Migrations.antt =====
-- `Database._apply_migrations` of src/ai_ha/store/db.py. What a statement of a migration does to the
-- tables is a parameter: a function that may fail.
pub mod Reopen
pub mod Names
pub mod Version
pub mod Files
use ai_home_assistant.Prelude.{ℕ, Option, none, some, List, [], ◌∷◌, if◌then◌else◌, leb}

-- `version` is the three digits of the file's name.
pub record Migration (Tables : Type 0) : Type 0 where
  pub version : ℕ
  pub script : List (Tables → Option Tables)

-- `version` is `schema_version` of kv_meta, 0 if there is none.
pub record Schema (Tables : Type 0) : Type 0 where
  pub tables : Tables
  pub version : ℕ

pub data Migrated (Tables : Type 0) : Type 0 where
  migrated migration_error : Schema Tables → Migrated Tables

pub data Ran (Tables : Type 0) : Type 0 where
  finished stopped_at : Tables → Ran Tables

module _ {Tables : Type 0} where
  abbrev ran_on : Option Tables → Tables → (Tables → Ran Tables) → Ran Tables
  ran_on none t later = stopped_at t
  ran_on (some t') t later = later t'

  -- `executescript` commits each statement, so that what ran before an error stays.
  unfoldable pub executescript : List (Tables → Option Tables) → Tables → Ran Tables
  executescript [] t = finished t
  executescript (statement ∷ rest) t =
      let later = executescript rest in ran_on (statement t) t later

  abbrev pub after_script : Ran Tables → ℕ → ℕ → (Schema Tables → Migrated Tables) → Migrated Tables
  after_script (finished t) version old later = later (record { tables = t; version = version })
  after_script (stopped_at t) version old later =
      migration_error (record { tables = t; version = old })

  -- The files come in the order of their names.
  unfoldable pub apply_migrations : List (Migration Tables) → Schema Tables → Migrated Tables
  unfolding executescript
  apply_migrations [] d = migrated d
  apply_migrations (m ∷ ms) d =
      let later = apply_migrations ms in
      if leb m.version d.version
      then later d
      else after_script (executescript m.script d.tables) m.version d.version later
