-- ===== src/Config/Schema.antt =====
-- The defaults of the classes of src/ai_ha/config/loader.py, and what their validation reads.
-- How pydantic reads one value of a type (`"8124"` as an int, say) is a parameter; an absent key
-- takes its default, a key that is not declared is passed over, and a class reads a table only.
pub mod Reading
use ai_home_assistant.Prelude.{
  String, Option, none, some, Bool, true, false, List, [], ◌∷◌, if◌then◌else◌, ◌==◌, string_eq,
}
use ai_home_assistant.Prelude.Int.{ℤ, pos}
pub use ai_home_assistant.Config.Classes.{
  Pydantic, HaConfig, BehaviorConfig, DigestConfig, LlmProvider, LlmConfig, AuditConfig,
  PrivacyConfig, WebConfig, SoftIntentionConfig, ArchiveConfig, AppConfig,
}
use ai_home_assistant.Config.Toml.{Value, Values, Fields, table, array, nil, cons, find}

infixl 10 ◌>>=◌
abbrev pub ◌>>=◌ : {A B : Type 0} → Option A → (A → Option B) → Option B
none >>= k = none
some a >>= k = k a

-- The fields of `AppConfig`, as the values of the file.
pub record Sections : Type 0 where
  pub ha : Option Value
  pub behavior : Option Value
  pub digest : Option Value
  pub llm : Option Value
  pub audit : Option Value
  pub privacy : Option Value
  pub web : Option Value
  pub soft_intention : Option Value
  pub archive : Option Value

unfoldable pub sections_of : Fields → Sections
sections_of raw = record {
  ha = find "ha" raw;
  behavior = find "behavior" raw;
  digest = find "digest" raw;
  llm = find "llm" raw;
  audit = find "audit" raw;
  privacy = find "privacy" raw;
  web = find "web" raw;
  soft_intention = find "soft_intention" raw;
  archive = find "archive" raw;
}

-- A field with a default, and one without.
abbrev pub or_default : {A : Type 0} → A → (Value → Option A) → Option Value → Option A
or_default d read none = some d
or_default d read (some v) = read v

abbrev pub required : {A : Type 0} → (Value → Option A) → Option Value → Option A
required read none = none
required read (some v) = read v

-- `Field(min_length=1)`
abbrev pub not_empty : String → Option String
not_empty s = if s == "" then none else some s

-- A class reads a table.
abbrev pub in_table : {A : Type 0} → (Fields → Option A) → Value → Option A
in_table read (table fs) = read fs
in_table read _ = none

-- A class as a field of `AppConfig`: an absent one is made of its defaults.
abbrev pub section : {A : Type 0} → (Fields → Option A) → Option Value → Option A
section read none = read Fields.end
section read (some v) = in_table read v

module _ {Float : Type 0} (py : Pydantic Float) where
  unfoldable pub ha_config : Fields → Option HaConfig
  ha_config fs = do
    url ← required (λ v. py.as_str v >>= not_empty) (find "url" fs)
    token ← required (λ v. py.as_str v >>= not_empty) (find "token" fs)
    some (record { url = url; token = token })

  unfoldable pub behavior_config : Fields → Option BehaviorConfig
  behavior_config fs = do
    history ← or_default (pos 30) py.as_int (find "history_retention_days" fs)
    half_life ← or_default (pos 14) py.as_int (find "preference_half_life_days" fs)
    observations ← or_default (pos 5) py.as_int (find "min_observations_for_pattern" fs)
    some (record {
      history_retention_days = history;
      preference_half_life_days = half_life;
      min_observations_for_pattern = observations;
    })

  unfoldable pub digest_config : Fields → Option DigestConfig
  digest_config fs = do
    tokens ← or_default (pos 500) py.as_int (find "max_tokens" fs)
    window ← or_default (pos 30) py.as_int (find "recent_event_window_minutes" fs)
    patterns ← or_default [] py.as_str_list (find "include_entities_pattern" fs)
    some (record {
      max_tokens = tokens;
      recent_event_window_minutes = window;
      include_entities_pattern = patterns;
    })

  unfoldable pub llm_provider : Fields → Option LlmProvider
  llm_provider fs = do
    key ← required py.as_str (find "key" fs)
    label ← or_default "" py.as_str (find "label" fs)
    base_url ← or_default "" py.as_str (find "base_url" fs)
    default_model ← or_default "" py.as_str (find "default_model" fs)
    role ← or_default "capable" py.as_str (find "role" fs)
    some (record {
      key = key;
      label = label;
      base_url = base_url;
      default_model = default_model;
      role = role;
    })

  unfoldable pub llm_providers : Values → Option (List LlmProvider)
  unfolding llm_provider
  llm_providers nil = some []
  llm_providers (cons v vs) =
      let rest = llm_providers vs in in_table llm_provider v >>= λ p. rest >>= λ ps. some (p ∷ ps)

  abbrev in_array : Value → Option (List LlmProvider)
  in_array (array vs) = llm_providers vs
  in_array _ = none

  unfoldable pub llm_config : Fields → Option (LlmConfig Float)
  unfolding llm_providers
  llm_config fs = do
    fast ← or_default "" py.as_str (find "fast_tier" fs)
    capable ← or_default "" py.as_str (find "capable_tier" fs)
    threshold ← or_default (py.literal "0.7") py.as_float (find "escalation_threshold" fs)
    budget ← or_default (py.literal "5.0") py.as_float (find "budget_usd_monthly" fs)
    providers ← or_default [] in_array (find "providers" fs)
    some (record {
      fast_tier = fast;
      capable_tier = capable;
      escalation_threshold = threshold;
      budget_usd_monthly = budget;
      providers = providers;
    })

  unfoldable pub audit_config : Fields → Option AuditConfig
  audit_config fs = do
    days ← or_default (pos 90) py.as_int (find "retention_days" fs)
    chain ← or_default true py.as_bool (find "hash_chain" fs)
    some (record { retention_days = days; hash_chain = chain })

  unfoldable pub privacy_config : Fields → Option PrivacyConfig
  privacy_config fs = do
    allow ← or_default false py.as_bool (find "allow_cloud_llm_with_digest" fs)
    patterns ← or_default [] py.as_str_list (find "hide_entities_pattern" fs)
    some (record { allow_cloud_llm_with_digest = allow; hide_entities_pattern = patterns })

  unfoldable pub web_config : Fields → Option WebConfig
  web_config fs = do
    host ← or_default "0.0.0.0" py.as_str (find "host" fs)
    port ← or_default (pos 8124) py.as_int (find "port" fs)
    require_auth ← or_default true py.as_bool (find "require_auth" fs)
    some (record { host = host; port = port; require_auth = require_auth })

  unfoldable pub soft_intention_config : Fields → Option SoftIntentionConfig
  soft_intention_config fs = do
    hours ← or_default (pos 72) py.as_int (find "auto_dismiss_after_hours" fs)
    size ← or_default (pos 50) py.as_int (find "max_queue_size" fs)
    confirm ← or_default true py.as_bool (find "require_dual_confirm_for_critical" fs)
    some (record {
      auto_dismiss_after_hours = hours;
      max_queue_size = size;
      require_dual_confirm_for_critical = confirm;
    })

  unfoldable pub archive_config : Fields → Option ArchiveConfig
  archive_config fs = do
    days ← or_default (pos 365) py.as_int (find "retention_days" fs)
    compress ← or_default true py.as_bool (find "compress" fs)
    some (record { retention_days = days; compress = compress })

  unfoldable pub app_config : Sections → Option (AppConfig Float)
  unfolding ha_config behavior_config digest_config llm_config audit_config privacy_config
      web_config soft_intention_config archive_config
  app_config raw = do
    ha ← required (in_table ha_config) raw.ha
    behavior ← section behavior_config raw.behavior
    digest ← section digest_config raw.digest
    llm ← section llm_config raw.llm
    audit ← section audit_config raw.audit
    privacy ← section privacy_config raw.privacy
    web ← section web_config raw.web
    soft_intention ← section soft_intention_config raw.soft_intention
    archive ← section archive_config raw.archive
    some (record {
      ha = ha;
      behavior = behavior;
      digest = digest;
      llm = llm;
      audit = audit;
      privacy = privacy;
      web = web;
      soft_intention = soft_intention;
      archive = archive;
    })

  -- `AppConfig.model_validate`
  unfoldable pub model_validate : Fields → Option (AppConfig Float)
  unfolding app_config sections_of
  model_validate raw = app_config (sections_of raw)
