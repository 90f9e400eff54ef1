-- ===== src/Config/Schema/Reading.antt =====
-- How the fields of a configuration that was read hang on the sections of the file.
use ai_home_assistant.Prelude.{
  String, Option, none, some, true, false, [], ◌≡◌, refl, ◌∙◌, ap, sym, arith, map_option,
  string_eq,
}
use ai_home_assistant.Prelude.Int.{pos}
use ai_home_assistant.Config.Toml.{Value, Fields, text, find}
use ai_home_assistant.Config.Schema.{
  Pydantic, HaConfig, WebConfig, PrivacyConfig, AppConfig, Sections, ◌>>=◌, required, section,
  in_table, not_empty, behavior_config, digest_config, llm_config, audit_config,
  soft_intention_config, archive_config, or_default, ha_config, web_config, privacy_config,
  app_config,
}

-- Inversion of a sequence that gave a value.
pub >>=-some :
    {A B : Type 0} (o : Option A) (k : A → Option B) {b : B}
    → (o >>= k) ≡ some b
    → (a : A) × (o ≡ some a) × (k a ≡ some b)
>>=-some none k h = cc
>>=-some (some a) k h = (a, refl, h)

module _ {Float : Type 0} (py : Pydantic Float) where
  -- Each field of a configuration is what its section reads as.
  pub record Reads (s : Sections) (cfg : AppConfig Float) : Type 0 where
    pub ha : required (in_table (ha_config py)) s.ha ≡ some cfg.ha
    pub behavior : section (behavior_config py) s.behavior ≡ some cfg.behavior
    pub digest : section (digest_config py) s.digest ≡ some cfg.digest
    pub llm : section (llm_config py) s.llm ≡ some cfg.llm
    pub audit : section (audit_config py) s.audit ≡ some cfg.audit
    pub privacy : section (privacy_config py) s.privacy ≡ some cfg.privacy
    pub web : section (web_config py) s.web ≡ some cfg.web
    pub soft_intention :
        section (soft_intention_config py) s.soft_intention ≡ some cfg.soft_intention
    pub archive : section (archive_config py) s.archive ≡ some cfg.archive

  pub app_config-Reads :
      (s : Sections) (cfg : AppConfig Float) → app_config py s ≡ some cfg → Reads s cfg
  unfolding app_config
  app_config-Reads s cfg h =
      let (a1, e1, r1) = >>=-some (required (in_table (ha_config py)) s.ha) _ h in
      let (a2, e2, r2) = >>=-some (section (behavior_config py) s.behavior) _ r1 in
      let (a3, e3, r3) = >>=-some (section (digest_config py) s.digest) _ r2 in
      let (a4, e4, r4) = >>=-some (section (llm_config py) s.llm) _ r3 in
      let (a5, e5, r5) = >>=-some (section (audit_config py) s.audit) _ r4 in
      let (a6, e6, r6) = >>=-some (section (privacy_config py) s.privacy) _ r5 in
      let (a7, e7, r7) = >>=-some (section (web_config py) s.web) _ r6 in
      let (a8, e8, r8) = >>=-some (section (soft_intention_config py) s.soft_intention) _ r7 in
      let (a9, e9, r9) = >>=-some (section (archive_config py) s.archive) _ r8 in
      record {
        ha = e1 ∙ ap (map_option (λ c. c.ha)) r9;
        behavior = e2 ∙ ap (map_option (λ c. c.behavior)) r9;
        digest = e3 ∙ ap (map_option (λ c. c.digest)) r9;
        llm = e4 ∙ ap (map_option (λ c. c.llm)) r9;
        audit = e5 ∙ ap (map_option (λ c. c.audit)) r9;
        privacy = e6 ∙ ap (map_option (λ c. c.privacy)) r9;
        web = e7 ∙ ap (map_option (λ c. c.web)) r9;
        soft_intention = e8 ∙ ap (map_option (λ c. c.soft_intention)) r9;
        archive = e9 ∙ ap (map_option (λ c. c.archive)) r9;
      }

  pub Reads-app_config :
      (s : Sections) (cfg : AppConfig Float) → Reads s cfg → app_config py s ≡ some cfg
  unfolding app_config
  Reads-app_config s cfg r =
      rw (r.ha, r.behavior, r.digest, r.llm, r.audit, r.privacy, r.web, r.soft_intention, r.archive)
        refl

  abbrev pub as_text : Value → Option String
  as_text v = py.as_str v >>= not_empty

  pub record HaReads (fs : Fields) (c : HaConfig) : Type 0 where
    pub url : required as_text (find "url" fs) ≡ some c.url
    pub token : required as_text (find "token" fs) ≡ some c.token

  pub ha_config-Reads : (fs : Fields) (c : HaConfig) → ha_config py fs ≡ some c → HaReads fs c
  unfolding ha_config
  ha_config-Reads fs c h =
      let (a1, e1, r1) = >>=-some (required as_text (find "url" fs)) _ h in
      let (a2, e2, r2) = >>=-some (required as_text (find "token" fs)) _ r1 in
      record {
        url = e1 ∙ ap (map_option (λ c. c.url)) r2;
        token = e2 ∙ ap (map_option (λ c. c.token)) r2;
      }

  -- A field read from a text that stands in the file.
  pub read_text :
      (key : String) (fs : Fields) (u s : String)
      → find key fs ≡ some (text u)
      → py.as_str (text u) ≡ some u
      → required as_text (find key fs) ≡ some s
      → s ≡ u
  read_text key fs u s f law h =
      let e : not_empty u ≡ some s = sym (rw (f, law) refl) ∙ h in ground arith

  pub record WebReads (fs : Fields) (c : WebConfig) : Type 0 where
    pub host : or_default "0.0.0.0" py.as_str (find "host" fs) ≡ some c.host
    pub port : or_default (pos 8124) py.as_int (find "port" fs) ≡ some c.port
    pub require_auth : or_default true py.as_bool (find "require_auth" fs) ≡ some c.require_auth

  pub web_config-Reads : (fs : Fields) (c : WebConfig) → web_config py fs ≡ some c → WebReads fs c
  unfolding web_config
  web_config-Reads fs c h =
      let (a1, e1, r1) = >>=-some (or_default "0.0.0.0" py.as_str (find "host" fs)) _ h in
      let (a2, e2, r2) = >>=-some (or_default (pos 8124) py.as_int (find "port" fs)) _ r1 in
      let (a3, e3, r3) = >>=-some (or_default true py.as_bool (find "require_auth" fs)) _ r2 in
      record {
        host = e1 ∙ ap (map_option (λ c. c.host)) r3;
        port = e2 ∙ ap (map_option (λ c. c.port)) r3;
        require_auth = e3 ∙ ap (map_option (λ c. c.require_auth)) r3;
      }

  pub record PrivacyReads (fs : Fields) (c : PrivacyConfig) : Type 0 where
    pub allow :
        or_default false py.as_bool (find "allow_cloud_llm_with_digest" fs)
        ≡ some c.allow_cloud_llm_with_digest
    pub patterns :
        or_default [] py.as_str_list (find "hide_entities_pattern" fs)
        ≡ some c.hide_entities_pattern

  pub privacy_config-Reads :
      (fs : Fields) (c : PrivacyConfig) → privacy_config py fs ≡ some c → PrivacyReads fs c
  unfolding privacy_config
  privacy_config-Reads fs c h =
      let (a1, e1, r1) =
        >>=-some (or_default false py.as_bool (find "allow_cloud_llm_with_digest" fs)) _ h in
      let (a2, e2, r2) =
        >>=-some (or_default [] py.as_str_list (find "hide_entities_pattern" fs)) _ r1 in
      record {
        allow = e1 ∙ ap (map_option (λ c. c.allow_cloud_llm_with_digest)) r2;
        patterns = e2 ∙ ap (map_option (λ c. c.hide_entities_pattern)) r2;
      }

  pub Reads-privacy_config :
      (fs : Fields) (c : PrivacyConfig) → PrivacyReads fs c → privacy_config py fs ≡ some c
  unfolding privacy_config
  Reads-privacy_config fs c r = rw (r.allow, r.patterns) refl
