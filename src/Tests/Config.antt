-- ===== src/Tests/Config.antt =====
-- The configuration, the watcher and the settings on a small file.
use ai_home_assistant.Prelude.{
  String, Option, none, some, true, false, List, [], ◌∷◌, ◌≡◌, refl, if◌then◌else◌, ◌==◌, string_eq,
  map_option, Bool, sym, ◌∙◌, arith,
}
use ai_home_assistant.Prelude.Int.{ℤ, pos}
use ai_home_assistant.Config.Toml.{
  Value, Values, Fields, text, integer, flag, array, table, nil, cons, end, entry, find, set, texts,
}
use ai_home_assistant.Config.Schema.{Pydantic, AppConfig, model_validate}
use ai_home_assistant.Config.Loader.{readable, Environ, loaded, given, set_in, load_config}
use ai_home_assistant.Config.Loader.Overrides.{overriding, port_of, load_config-overriding}
use ai_home_assistant.Config.Loader.Saved.{with_patterns}
use ai_home_assistant.Config.Watcher.{watch}
use ai_home_assistant.Privacy.{hide_matcher}
use ai_home_assistant.Privacy.Matching.{any_pattern}
use ai_home_assistant.Web.Settings.{PrivacyPayload, privacy_reply, update_privacy}
use ai_home_assistant.Web.Settings.Effect.{update_privacy_takes_effect}
use ai_home_assistant.Tests.Service.{literally, equals, at_home}

program : Unit {0}
unfolding load_config model_validate update_privacy hide_matcher find set texts
program = tt

abbrev strings : Values → Option (List String)
strings nil = some []
strings (cons (text s) vs) = map_option (λ ss. s ∷ ss) (strings vs)
strings (cons _ vs) = none

abbrev string_of : Value → Option String
string_of (text s) = some s
string_of _ = none

abbrev integer_of : Value → Option ℤ
integer_of (integer z) = some z
integer_of _ = none

abbrev flag_of : Value → Option Bool
flag_of (flag b) = some b
flag_of _ = none

abbrev strings_of : Value → Option (List String)
strings_of (array vs) = strings vs
strings_of _ = none

-- Values are read as they are; what numbers with a point are does not matter here.
abbrev pub strict : Pydantic String
strict = record {
  as_str = string_of;
  as_int = integer_of;
  as_float = string_of;
  as_bool = flag_of;
  as_str_list = strings_of;
  literal = λ s. s;
}

abbrev plain : Fields
plain = entry "ha" (table (entry "url" (text "http://h") (entry "token" (text "t") end))) end

abbrev hiding : Fields
hiding = entry "ha" (table (entry "url" (text "http://h") (entry "token" (text "t") end))) (
    entry "privacy" (table (entry "hide_entities_pattern" (array (texts ("light.k" ∷ []))) end))
      end)

abbrev pub loads : String → Option Fields
loads s = if s == "old" then some plain else if s == "new" then some hiding else none

abbrev dumps : Fields → String
dumps raw = "new"

abbrev pub int : String → Option ℤ
int s = if s == "9000" then some (pos 9000) else none

abbrev pub environ : Environ
environ = record { ha_url = some "http://other"; ha_token = some ""; ai_ha_web_port = some "9000" }

abbrev pub defaults : AppConfig String
defaults = record {
  ha = record { url = "http://other"; token = "t" };
  behavior = record {
    history_retention_days = pos 30;
    preference_half_life_days = pos 14;
    min_observations_for_pattern = pos 5;
  };
  digest = record {
    max_tokens = pos 500;
    recent_event_window_minutes = pos 30;
    include_entities_pattern = [];
  };
  llm = record {
    fast_tier = "";
    capable_tier = "";
    escalation_threshold = "0.7";
    budget_usd_monthly = "5.0";
    providers = [];
  };
  audit = record { retention_days = pos 90; hash_chain = true };
  privacy = record { allow_cloud_llm_with_digest = false; hide_entities_pattern = [] };
  web = record { host = "0.0.0.0"; port = pos 9000; require_auth = true };
  soft_intention = record {
    auto_dismiss_after_hours = pos 72;
    max_queue_size = pos 50;
    require_dual_confirm_for_critical = true;
  };
  archive = record { retention_days = pos 365; compress = true };
}

loads_defaults : load_config int strict loads environ (readable "old") ≡ loaded defaults
unfolding program
loads_defaults = refl

load_config-overriding_example :
    (overriding (given environ.ha_url) defaults.ha.url ≡ defaults.ha.url)
    × (overriding (given environ.ha_token) defaults.ha.token ≡ defaults.ha.token)
    × (overriding (port_of int (given environ.ai_ha_web_port)) defaults.web.port
        ≡ defaults.web.port)
load_config-overriding_example =
    load_config-overriding int strict loads environ (readable "old") defaults (λ s. refl)
      (λ z. refl) loads_defaults

abbrev posted : PrivacyPayload
posted = record { hide_entities_pattern = "light.k" ∷ []; allow_cloud_llm_with_digest = none }

is_posted : update_privacy literally loads dumps posted (readable "old") ≡ (
  privacy_reply
      (record { hide_entities_pattern = "light.k" ∷ []; allow_cloud_llm_with_digest = false }),
  readable "new",
)
unfolding program
is_posted = refl

adds_patterns :
    set_in "privacy" "hide_entities_pattern" (array (texts ("light.k" ∷ []))) plain ≡ loaded hiding
unfolding program
adds_patterns = refl

reads_back :
    (raw raw' : Fields)
    → loads "old" ≡ some raw
    → set_in "privacy" "hide_entities_pattern" (array (texts ("light.k" ∷ []))) raw ≡ loaded raw'
    → loads (dumps raw') ≡ some raw'
reads_back raw raw' parsed changed =
    let same : plain ≡ raw = ground (arith, parsed) in
    let new : loaded hiding ≡ loaded raw' = sym adds_patterns ∙ rw same changed in
    ground (arith, new)

reads_texts : (ss : List String) → strict.as_str_list (array (texts ss)) ≡ some ss
unfolding texts
reads_texts [] = refl
reads_texts (s ∷ ss) = rw (reads_texts ss) refl

update_privacy_takes_effect_example :
    let a' = (watch literally equals int strict loads ((environ, readable "new") ∷ []) at_home).0 in
    (load_config int strict loads environ (readable "new")
      ≡ loaded (with_patterns ("light.k" ∷ []) defaults))
    × (a'.hide_pattern ≡ "light.k" ∷ [])
    × ((entity_id : String)
        → a'.ingest.pipeline.hide entity_id
          ≡ any_pattern literally equals entity_id ("light.k" ∷ []))
update_privacy_takes_effect_example =
    update_privacy_takes_effect literally loads dumps equals int strict environ posted "old" "new"
      (record { hide_entities_pattern = "light.k" ∷ []; allow_cloud_llm_with_digest = false })
      defaults at_home reads_back reads_texts loads_defaults is_posted
