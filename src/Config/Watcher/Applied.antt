-- ===== src/Config/Watcher/Applied.antt =====
-- What the changes of the file that src/ai_ha/config/watcher.py sees make of the service.
use ai_home_assistant.Prelude.{String, Option, Bool, true, false, List, [], ◌∷◌}
use ai_home_assistant.Prelude.Int.{ℤ}
use ai_home_assistant.Config.Toml.{Fields}
use ai_home_assistant.Config.Schema.{Pydantic, AppConfig}
use ai_home_assistant.Config.Loader.{
  FileText, decode_error, Environ, Loaded, loaded, refused, io_error, toml_error, bad_port, invalid,
  type_error, load_config,
}
use ai_home_assistant.Config.Watcher.{on_load, go_on, watch}
use ai_home_assistant.Service.{Service}
use ai_home_assistant.Service.Reload.{IsConsistent, on_cfg_change-IsConsistent}

module _ {Pattern : Type 0} (compile : String → Option Pattern)
    (fullmatch : Pattern → String → Bool) where
  go_on-IsConsistent :
      (k : Service → Service × Bool) (o : Service × Bool)
      → IsConsistent compile fullmatch o.0
      → ((a : Service) → IsConsistent compile fullmatch a → IsConsistent compile fullmatch (k a).0)
      → IsConsistent compile fullmatch (go_on k o).0
  go_on-IsConsistent k (a, true) h later = later a h
  go_on-IsConsistent k (a, false) h later = h

module _ {Pattern : Type 0} (compile : String → Option Pattern)
    (fullmatch : Pattern → String → Bool) {Float : Type 0} where
  on_load-IsConsistent :
      (r : Loaded (AppConfig Float)) (a : Service)
      → IsConsistent compile fullmatch a
      → IsConsistent compile fullmatch (on_load compile fullmatch r a).0
  unfolding on_load
  on_load-IsConsistent (loaded cfg) a h = on_cfg_change-IsConsistent compile fullmatch _ a h
  on_load-IsConsistent (refused io_error) a h = h
  on_load-IsConsistent (refused decode_error) a h = h
  on_load-IsConsistent (refused toml_error) a h = h
  on_load-IsConsistent (refused bad_port) a h = h
  on_load-IsConsistent (refused invalid) a h = h
  on_load-IsConsistent (refused type_error) a h = h

  module _ (int : String → Option ℤ) (py : Pydantic Float) (loads : String → Option Fields) where
    -- Whatever the file and the environment become, and also where a file is refused or ends the
    -- watcher, the pipeline hides exactly what the patterns on display match.
    pub watch-IsConsistent :
        (changes : List (Environ × FileText)) (a : Service)
        → IsConsistent compile fullmatch a
        → IsConsistent compile fullmatch (watch compile fullmatch int py loads changes a).0
    unfolding watch
    watch-IsConsistent [] a h = h
    watch-IsConsistent ((env, file) ∷ changes) a h =
        let r = load_config int py loads env file in
        go_on-IsConsistent compile fullmatch (watch compile fullmatch int py loads changes)
          (on_load compile fullmatch r a) (on_load-IsConsistent r a h) (watch-IsConsistent changes)
