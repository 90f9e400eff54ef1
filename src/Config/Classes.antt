-- ===== src/Config/Classes.antt =====
-- The classes of src/ai_ha/config/loader.py, and how pydantic reads the values of their fields.
use ai_home_assistant.Prelude.{String, Option, Bool, List}
use ai_home_assistant.Prelude.Int.{ℤ}
use ai_home_assistant.Config.Toml.{Value}

-- `literal` is the number that a decimal text denotes in a Python program.
pub record Pydantic (Float : Type 0) : Type 0 where
  pub as_str : Value → Option String
  pub as_int : Value → Option ℤ
  pub as_float : Value → Option Float
  pub as_bool : Value → Option Bool
  pub as_str_list : Value → Option (List String)
  pub literal : String → Float

pub record HaConfig : Type 0 where
  pub url : String
  pub token : String

pub record BehaviorConfig : Type 0 where
  pub history_retention_days : ℤ
  pub preference_half_life_days : ℤ
  pub min_observations_for_pattern : ℤ

pub record DigestConfig : Type 0 where
  pub max_tokens : ℤ
  pub recent_event_window_minutes : ℤ
  pub include_entities_pattern : List String

pub record LlmProvider : Type 0 where
  pub key : String
  pub label : String
  pub base_url : String
  pub default_model : String
  pub role : String

pub record LlmConfig (Float : Type 0) : Type 0 where
  pub fast_tier : String
  pub capable_tier : String
  pub escalation_threshold : Float
  pub budget_usd_monthly : Float
  pub providers : List LlmProvider

pub record AuditConfig : Type 0 where
  pub retention_days : ℤ
  pub hash_chain : Bool

pub record PrivacyConfig : Type 0 where
  pub allow_cloud_llm_with_digest : Bool
  pub hide_entities_pattern : List String

pub record WebConfig : Type 0 where
  pub host : String
  pub port : ℤ
  pub require_auth : Bool

pub record SoftIntentionConfig : Type 0 where
  pub auto_dismiss_after_hours : ℤ
  pub max_queue_size : ℤ
  pub require_dual_confirm_for_critical : Bool

pub record ArchiveConfig : Type 0 where
  pub retention_days : ℤ
  pub compress : Bool

pub record AppConfig (Float : Type 0) : Type 0 where
  pub ha : HaConfig
  pub behavior : BehaviorConfig
  pub digest : DigestConfig
  pub llm : LlmConfig Float
  pub audit : AuditConfig
  pub privacy : PrivacyConfig
  pub web : WebConfig
  pub soft_intention : SoftIntentionConfig
  pub archive : ArchiveConfig
