-- ===== src/Config/Loader/Saved.antt =====
-- A configuration of src/ai_ha/config/loader.py whose hide patterns were changed in the file.
use ai_home_assistant.Prelude.{
  String, Option, some, List, inl, inr, ◌≡◌, refl, ◌∙◌, ap, sym, string_eq,
}
use ai_home_assistant.Prelude.Int.{ℤ}
use ai_home_assistant.Config.Toml.{Value, Fields, array, texts, find, set, find-set}
use ai_home_assistant.Config.Schema.{
  Pydantic, PrivacyConfig, AppConfig, Sections, sections_of, section, privacy_config,
}
use ai_home_assistant.Config.Schema.Reading.{
  Reads, Reads-app_config, privacy_config-Reads, Reads-privacy_config,
}
use ai_home_assistant.Config.Loader.{readable, Environ, loaded, put_in, set_in, load_config}
use ai_home_assistant.Config.Loader.Outcomes.{and_then-loaded}
use ai_home_assistant.Config.Loader.Sections.{
  put_in-loaded, sections-set_privacy, overridden, read_sections, overridden-Steps,
  load_config-sections,
}

abbrev pub with_patterns : {Float : Type 0} → List String → AppConfig Float → AppConfig Float
with_patterns ps cfg = record cfg { privacy = record cfg.privacy { hide_entities_pattern = ps } }

module _ (int : String → Option ℤ) {Float : Type 0} (py : Pydantic Float)
    (loads : String → Option Fields)
    (as_list : (ss : List String) → py.as_str_list (array (texts ss)) ≡ some ss) where
  -- The privacy section with the patterns set reads as before but for them.
  privacy-set :
      (ps : List String) (v : Option Value) (w : Value) (c : PrivacyConfig)
      → put_in v "hide_entities_pattern" (array (texts ps)) ≡ loaded w
      → section (privacy_config py) v ≡ some c
      → section (privacy_config py) (some w) ≡ some (record c { hide_entities_pattern = ps })
  privacy-set ps v w c h e =
      let (base, shape, was) = put_in-loaded v "hide_entities_pattern" (array (texts ps)) w h in
      let before : privacy_config py base ≡ some c = elim was [
        | inl (nothing, empty) ↦ rw (nothing, ← empty) at e
        | inr there ↦ rw there at e
      ] in
      let reads = privacy_config-Reads py base c before in
      let fs = set "hide_entities_pattern" (array (texts ps)) base in
      let kept : find "allow_cloud_llm_with_digest" fs ≡ find "allow_cloud_llm_with_digest" base =
        find-set "hide_entities_pattern" "allow_cloud_llm_with_digest" (array (texts ps)) base in
      let there : find "hide_entities_pattern" fs ≡ some (array (texts ps)) =
        find-set "hide_entities_pattern" "hide_entities_pattern" (array (texts ps)) base in
      rw shape (
        Reads-privacy_config py fs (record c { hide_entities_pattern = ps })
          (record { allow = rw kept reads.allow; patterns = rw there (as_list ps) }))

  pub load_config-set_in :
      (env : Environ) (body body' : String) (raw raw' : Fields) (ps : List String)
      (cfg : AppConfig Float)
      → loads body ≡ some raw
      → loads body' ≡ some raw'
      → set_in "privacy" "hide_entities_pattern" (array (texts ps)) raw ≡ loaded raw'
      → load_config int py loads env (readable body) ≡ loaded cfg
      → load_config int py loads env (readable body') ≡ loaded (with_patterns ps cfg)
  unfolding set_in
  load_config-set_in env body body' raw raw' ps cfg e e' saved h =
      let secs = sections_of raw in
      let over : overridden int env secs (read_sections int py loads) ≡ loaded cfg =
        sym (load_config-sections int py loads env body raw e) ∙ h in
      let k = overridden-Steps int py loads env secs cfg over in
      let (w, put, r) =
        and_then-loaded (put_in (find "privacy" raw) "hide_entities_pattern" (array (texts ps))) _
          saved in
      let path : raw' ≡ set "privacy" w raw = cc in
      let secs' : Sections = record secs { privacy = some w } in
      let new : sections_of raw' ≡ secs' = ap sections_of path ∙ sections-set_privacy w raw in
      let cfg' = with_patterns ps cfg in
      let s : Sections = record secs' { ha = k.v2; web = k.p } in
      let old = k.reads in
      let reads : Reads py s cfg' = record {
        ha = old.ha;
        behavior = old.behavior;
        digest = old.digest;
        llm = old.llm;
        audit = old.audit;
        privacy =
            privacy-set ps (find "privacy" raw) w cfg.privacy put
              (unfold sections_of in old.privacy);
        web = old.web;
        soft_intention = old.soft_intention;
        archive = old.archive;
      } in
      load_config-sections int py loads env body' raw' e'
      ∙ rw (new, k.url_step, k.token_step, k.port_step, Reads-app_config py s cfg' reads) refl
