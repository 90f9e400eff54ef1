-- ===== src/Service/Main/Exits.antt =====
-- The exit codes of src/ai_ha/main.py.
use ai_home_assistant.Prelude.{ℕ, String, Option, true, false, List, ◌≡◌, ◌≢◌}
use ai_home_assistant.Privacy.{PatternError, built, refused, hide_matcher}
use ai_home_assistant.Config.Schema.{AppConfig}
use ai_home_assistant.Config.Loader as Loader
use ai_home_assistant.Config.Loader.{decode_error, Loaded, loaded, LoadError, type_error}
use ai_home_assistant.Service.Startup.{Startup, exits}
use ai_home_assistant.Service.Main.{Exit, exit_code, traceback}

abbrev code_of : Startup → ℕ
code_of (exits n) = n
code_of _ = 0

abbrev number_of : Exit → ℕ
number_of (exit_code n) = n
number_of traceback = 0

module _ {Pattern : Type 0} (compile : String → Option Pattern) {Float : Type 0} where
  -- The configuration is refused by an error that is reported, or its patterns are.
  abbrev pub IsMisconfigured : Loaded (AppConfig Float) → Type 0
  IsMisconfigured (Loader.refused x) = (x ≢ type_error) × (x ≢ decode_error)
  IsMisconfigured (loaded cfg) =
      (x : PatternError) × (hide_matcher compile cfg.privacy.hide_entities_pattern ≡ refused x)

  -- The configuration and its patterns are accepted.
  abbrev pub IsConfigured : Loaded (AppConfig Float) → Type 0
  IsConfigured (Loader.refused x) = true ≡ false
  IsConfigured (loaded cfg) =
      (cs : List Pattern) × (hide_matcher compile cfg.privacy.hide_entities_pattern ≡ built cs)
