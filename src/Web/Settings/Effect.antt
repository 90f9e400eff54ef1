-- ===== src/Web/Settings/Effect.antt =====
-- What becomes of patterns that were posted to src/ai_ha/web/routes/settings.py.
use ai_home_assistant.Prelude.{
  String, Option, some, Bool, List, [], ◌∷◌, ◌≡◌, ap, arith, inl, inr, Option-cases,
}
use ai_home_assistant.Prelude.Int.{ℤ}
use ai_home_assistant.Privacy.{built, hide_matcher}
use ai_home_assistant.Privacy.Matching.{any_pattern, Built-cases}
use ai_home_assistant.Service.{Service}
use ai_home_assistant.Service.Reload.{hide_pattern-on_cfg_change, hide-on_cfg_change}
use ai_home_assistant.Config.Toml.{Fields, array, texts}
use ai_home_assistant.Config.Schema.{Pydantic, AppConfig}
use ai_home_assistant.Config.Loader.{readable, Environ, loaded, set_in, load_config}
use ai_home_assistant.Config.Loader.Outcomes.{Loaded-cases}
use ai_home_assistant.Config.Loader.Saved.{with_patterns, load_config-set_in}
use ai_home_assistant.Config.Watcher.{watch, on_load}
use ai_home_assistant.Web.Settings.{PrivacyPayload, privacy_reply, PrivacyReply, update_privacy}

module _ {Pattern : Type 0} (compile : String → Option Pattern) (loads : String → Option Fields)
    (dumps : Fields → String) where
  -- A reply with the settings: the patterns were accepted, and the file was changed at one key.
  pub record Saves (payload : PrivacyPayload) (body body' : String) : Type 0 where
    pub matcher : List Pattern
    pub raw : Fields
    pub raw' : Fields
    pub accepted : hide_matcher compile payload.hide_entities_pattern ≡ built matcher
    pub parsed : loads body ≡ some raw
    pub changed :
        set_in "privacy" "hide_entities_pattern" (array (texts payload.hide_entities_pattern)) raw
        ≡ loaded raw'
    pub printed : body' ≡ dumps raw'

  update_privacy-Saves :
      (payload : PrivacyPayload) (body body' : String) (r : PrivacyReply)
      → update_privacy compile loads dumps payload (readable body)
        ≡ (privacy_reply r, readable body')
      → Saves payload body body'
  unfolding update_privacy
  update_privacy-Saves payload body body' r h =
      elim (Built-cases (hide_matcher compile payload.hide_entities_pattern)) [
        | inr (x, e) ↦ absurd (let no = rw e at h in ground arith)
        | inl (cs, e) ↦ elim (Option-cases (loads body)) [
          | inl f ↦ absurd (let no = rw (e, f) at h in ground arith)
          | inr (raw, f) ↦
              elim (Loaded-cases (
                set_in "privacy" "hide_entities_pattern"
                  (array (texts payload.hide_entities_pattern)) raw)) [
                    | inr (x, g) ↦ absurd (let no = rw (e, f, g) at h in ground arith)
                    | inl (raw', g) ↦
                        let yes = rw (e, f, g) at h in
                        record {
                          matcher = cs;
                          raw = raw;
                          raw' = raw';
                          accepted = e;
                          parsed = f;
                          changed = g;
                          printed =
                              let file : readable (dumps raw') ≡ readable body' =
                                ap (λ o. o.1) yes in
                              cc;
                        }
                  ]
        ]
      ]

  module _ (fullmatch : Pattern → String → Bool) (int : String → Option ℤ) {Float : Type 0}
      (py : Pydantic Float) where
    -- Where the file loads and a POST of hide patterns is answered with the settings, the file that
    -- it writes loads as the configuration of before with the posted patterns in place of the old
    -- ones; and once the watcher has seen it, the posted patterns are on display and the pipeline
    -- hides exactly what they match. `loads` reads back what `dumps` writes of the changed dict,
    -- and pydantic takes a list of texts as it is.
    pub update_privacy_takes_effect :
        (env : Environ) (payload : PrivacyPayload) (body body' : String) (r : PrivacyReply)
        (cfg : AppConfig Float) (a : Service)
        → ((raw raw' : Fields)
            → loads body ≡ some raw
            → set_in "privacy" "hide_entities_pattern"
                (array (texts payload.hide_entities_pattern))
                raw
              ≡ loaded raw'
            → loads (dumps raw') ≡ some raw')
        → ((ss : List String) → py.as_str_list (array (texts ss)) ≡ some ss)
        → load_config int py loads env (readable body) ≡ loaded cfg
        → update_privacy compile loads dumps payload (readable body)
          ≡ (privacy_reply r, readable body')
        → let ps = payload.hide_entities_pattern in
          let a' = (watch compile fullmatch int py loads ((env, readable body') ∷ []) a).0 in
          (load_config int py loads env (readable body') ≡ loaded (with_patterns ps cfg))
          × (a'.hide_pattern ≡ ps)
          × ((entity_id : String)
              → a'.ingest.pipeline.hide entity_id ≡ any_pattern compile fullmatch entity_id ps)
    unfolding watch on_load
    update_privacy_takes_effect env payload body body' r cfg a back as_list old posted =
        let ps = payload.hide_entities_pattern in
        let k = update_privacy-Saves payload body body' r posted in
        let new =
          load_config-set_in int py loads as_list env body body' k.raw k.raw' ps cfg k.parsed
            (rw k.printed (back k.raw k.raw' k.parsed k.changed)) k.changed old in
        let shown = hide_pattern-on_cfg_change compile fullmatch ps a k.matcher k.accepted in
        let hides = hide-on_cfg_change compile fullmatch ps a k.matcher k.accepted in
        (new, rw new shown, rw new hides)
