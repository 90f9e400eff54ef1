-- ===== src/Web/Settings.antt =====
-- The privacy settings of src/ai_ha/web/routes/settings.py. `loads` and `dumps` are those of tomllib
-- and tomli_w. The program always passes a state; the answers without one are left out.
pub mod Effect
use ai_home_assistant.Prelude.{String, Option, none, some, Bool, false, List}
use ai_home_assistant.Privacy.{Built, built, refused, hide_matcher}
use ai_home_assistant.Service.{Service}
use ai_home_assistant.Config.Toml.{Fields, array, texts}
use ai_home_assistant.Config.Loader as Loader
use ai_home_assistant.Config.Loader.{
  FileText, readable, undecodable, unreadable, Loaded, loaded, set_in,
}

pub record PrivacyPayload : Type 0 where
  pub hide_entities_pattern : List String
  pub allow_cloud_llm_with_digest : Option Bool

pub record PrivacyReply : Type 0 where
  pub hide_entities_pattern : List String
  pub allow_cloud_llm_with_digest : Bool

-- `pattern_invalid` is status 422, `server_error` an error that the route does not catch.
pub data SettingsReply : Type 0 where
  privacy_reply : PrivacyReply → SettingsReply
  pattern_invalid server_error : SettingsReply

unfoldable pub get_privacy : Service → SettingsReply
get_privacy a =
    privacy_reply
      (record { hide_entities_pattern = a.hide_pattern; allow_cloud_llm_with_digest = false })

module _ {Pattern : Type 0} (compile : String → Option Pattern) (loads : String → Option Fields)
    (dumps : Fields → String) where
  abbrev pub written : PrivacyPayload → FileText → Loaded Fields → SettingsReply × FileText
  written payload file (loaded raw) = (
    privacy_reply (record {
      hide_entities_pattern = payload.hide_entities_pattern;
      allow_cloud_llm_with_digest = false;
    }),
    readable (dumps raw),
  )
  written payload file (Loader.refused x) = (server_error, file)

  abbrev pub rewritten : PrivacyPayload → FileText → Option Fields → SettingsReply × FileText
  rewritten payload file none = (server_error, file)
  rewritten payload file (some raw) =
      written payload file
        (set_in "privacy" "hide_entities_pattern" (array (texts payload.hide_entities_pattern)) raw)

  abbrev pub after_check :
      PrivacyPayload → FileText → Built (List Pattern) → SettingsReply × FileText
  after_check payload unreadable (built cs) = (server_error, unreadable)
  after_check payload undecodable (built cs) = (server_error, undecodable)
  after_check payload (readable body) (built cs) = rewritten payload (readable body) (loads body)
  after_check payload file (refused x) = (pattern_invalid, file)

  -- The reply, and the file.
  unfoldable pub update_privacy : PrivacyPayload → FileText → SettingsReply × FileText
  update_privacy payload file =
      after_check payload file (hide_matcher compile payload.hide_entities_pattern)
