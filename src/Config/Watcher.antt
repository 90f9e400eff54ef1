-- ===== src/Config/Watcher.antt =====
-- `ConfigWatcher.run` of src/ai_ha/config/watcher.py, with the handler that src/ai_ha/main.py gives
-- it. What the file and the environment are at each change stands in a list; the pauses before a
-- reading are left out, and no error handler is given.
pub mod Applied
use ai_home_assistant.Prelude.{String, Option, Bool, true, false, List, [], ◌∷◌}
use ai_home_assistant.Prelude.Int.{ℤ}
use ai_home_assistant.Config.Toml.{Fields}
use ai_home_assistant.Config.Schema.{Pydantic, AppConfig}
use ai_home_assistant.Config.Loader.{
  FileText, decode_error, Environ, Loaded, loaded, refused, type_error, load_config,
}
use ai_home_assistant.Service.{Service, on_cfg_change}

abbrev pub go_on : (Service → Service × Bool) → Service × Bool → Service × Bool
go_on k (a, true) = k a
go_on k (a, false) = (a, false)

module _ {Pattern : Type 0} (compile : String → Option Pattern)
    (fullmatch : Pattern → String → Bool) {Float : Type 0} where
  -- The service, and whether the watcher still runs: an error other than a ConfigError ends it.
  unfoldable pub on_load : Loaded (AppConfig Float) → Service → Service × Bool
  on_load (loaded cfg) a =
      (on_cfg_change compile fullmatch cfg.privacy.hide_entities_pattern a, true)
  on_load (refused decode_error) a = (a, false)
  on_load (refused type_error) a = (a, false)
  on_load (refused _) a = (a, true)

  module _ (int : String → Option ℤ) (py : Pydantic Float) (loads : String → Option Fields) where
    unfoldable pub watch : List (Environ × FileText) → Service → Service × Bool
    unfolding on_load
    watch [] a = (a, true)
    watch ((env, file) ∷ changes) a =
        let later = watch changes in go_on later (on_load (load_config int py loads env file) a)
