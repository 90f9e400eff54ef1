-- ===== src/Store/Migrations/Version.antt =====
-- The version of the schema in the table kv_meta, as `_get_schema_version` and
-- `_set_schema_version` of src/ai_ha/store/db.py read and write it. `int` and `str` are Python's; a
-- text that `int` refuses raises, here `none`.
use ai_home_assistant.Prelude.{
  ℕ, String, Option, none, some, ◌≡◌, ◌≢◌, refl, ◌∙◌, Bool-cases, inl, inr, ◌==◌, string_eq,
  eq_of_beq, sym,
}
use ai_home_assistant.Prelude.Dict.{Dict, get, put, get-alter}

module _ (int : String → Option ℕ) (str : ℕ → String) where
  abbrev read_version : Option (String × ℕ) → Option ℕ
  read_version none = some 0
  read_version (some (value, _)) = int value

  unfoldable pub get_schema_version : Dict String (String × ℕ) → Option ℕ
  get_schema_version kv_meta = read_version (get "schema_version" kv_meta)

  -- INSERT OR REPLACE, at the time `now`.
  unfoldable pub set_schema_version : ℕ → ℕ → Dict String (String × ℕ) → Dict String (String × ℕ)
  set_schema_version now v kv_meta = put "schema_version" (str v, now) kv_meta

  -- What was set is read back, and every other key keeps its value; `int` reads what `str` writes.
  pub get_schema_version-set_schema_version :
      (now v : ℕ) (kv_meta : Dict String (String × ℕ)) (key : String)
      → int (str v) ≡ some v
      → key ≢ "schema_version"
      → (get_schema_version (set_schema_version now v kv_meta) ≡ some v)
        × (get key (set_schema_version now v kv_meta) ≡ get key kv_meta)
  unfolding get_schema_version set_schema_version
  get_schema_version-set_schema_version now v kv_meta key reads other = (
    rw (get-alter "schema_version" "schema_version" (λ _. (str v, now)) kv_meta) reads,
    get-alter "schema_version" key (λ _. (str v, now)) kv_meta
        ∙ elim (Bool-cases ("schema_version" == key)) [
          | inl same ↦ absurd (other (sym (eq_of_beq "schema_version" key same)))
          | inr apart ↦ rw apart refl
        ],
  )
