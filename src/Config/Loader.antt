-- ===== src/Config/Loader.antt =====
-- `load_config` of src/ai_ha/config/loader.py. What reading the file gives, `tomllib.loads`, `int`
-- and the environment are parameters.
pub mod Outcomes
pub mod Sections
pub mod Overrides
pub mod Saved
use ai_home_assistant.Prelude.{
  String, Option, none, some, Bool, true, false, List, [], ◌∷◌, if◌then◌else◌, truthy,
}
use ai_home_assistant.Prelude.Int.{ℤ}
use ai_home_assistant.Config.Toml.{Value, Fields, text, integer, table, end, find, set}
use ai_home_assistant.Config.Schema.{Pydantic, AppConfig, model_validate}

-- The three variables that are read.
pub record Environ : Type 0 where
  pub ha_url : Option String
  pub ha_token : Option String
  pub ai_ha_web_port : Option String

-- What `Path.read_text` finds: an OSError, bytes that are not UTF-8, or a text.
pub data FileText : Type 0 where
  unreadable undecodable : FileText
  readable : String → FileText

-- Two are not caught, and are no ConfigError: `decode_error`, of a file that is not UTF-8, and
-- `type_error`, of an item assignment to what is not a dict.
pub data LoadError : Type 0 where
  io_error decode_error toml_error bad_port invalid type_error : LoadError

pub data Loaded (A : Type 0) : Type 0 where
  loaded : A → Loaded A
  refused : LoadError → Loaded A

abbrev pub and_then : {A B : Type 0} → Loaded A → (A → Loaded B) → Loaded B
and_then (loaded a) k = k a
and_then (refused x) k = refused x

abbrev pub or_refused : {A : Type 0} → LoadError → Option A → Loaded A
or_refused x none = refused x
or_refused x (some a) = loaded a

abbrev pub text_or_error : FileText → Loaded String
text_or_error unreadable = refused io_error
text_or_error undecodable = refused decode_error
text_or_error (readable s) = loaded s

-- The dict of a section, made if it is missing, with the key set.
unfoldable pub put_in : Option Value → String → Value → Loaded Value
put_in none key value = loaded (table (set key value end))
put_in (some (table fs)) key value = loaded (table (set key value fs))
put_in (some _) key value = refused type_error

-- `raw.setdefault(name, {})[key] = value`
unfoldable pub set_in : String → String → Value → Fields → Loaded Fields
unfolding put_in
set_in name key value raw =
    and_then (put_in (find name raw) key value) (λ v. loaded (set name v raw))

-- The text of a variable that is set and not empty.
abbrev pub given : Option String → Option String
given o = if truthy o then o else none

abbrev pub with_text : Option String → String → Fields → Loaded Fields
with_text none key raw = loaded raw
with_text (some s) key raw = set_in "ha" key (text s) raw

abbrev pub port_value : Option ℤ → Loaded Value
port_value none = refused bad_port
port_value (some z) = loaded (integer z)

module _ (int : String → Option ℤ) where
  abbrev pub with_port : Option String → Fields → Loaded Fields
  with_port none raw = loaded raw
  with_port (some s) raw = and_then (port_value (int s)) (λ v. set_in "web" "port" v raw)

  unfoldable pub apply_env_overrides : Environ → Fields → Loaded Fields
  unfolding set_in
  apply_env_overrides env raw = and_then (with_text (given env.ha_url) "url" raw) (λ r1.
      and_then (with_text (given env.ha_token) "token" r1)
        (λ r2. with_port (given env.ai_ha_web_port) r2))

  -- `loads` is `tomllib.loads`.
  module _ {Float : Type 0} (py : Pydantic Float) (loads : String → Option Fields) where
    unfoldable pub load_config : Environ → FileText → Loaded (AppConfig Float)
    unfolding apply_env_overrides
    load_config env file = and_then (text_or_error file) (λ text.
        and_then (or_refused toml_error (loads text)) (λ raw.
          and_then (apply_env_overrides env raw)
            (λ raw'. or_refused invalid (model_validate py raw'))))
