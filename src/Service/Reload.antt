-- ===== src/Service/Reload.antt =====
-- The reload of the privacy patterns in src/ai_ha/main.py.
use ai_home_assistant.Prelude.{String, Option, Bool, List, ◌≡◌, refl, inl, inr}
use ai_home_assistant.Privacy.{built, hide_matcher}
use ai_home_assistant.Privacy.Matching.{
  any_pattern, Built-cases, hide_matcher-matches, hide_matcher-Accepted,
}
use ai_home_assistant.Service.{Service, on_cfg_change}

module _ {Pattern : Type 0} (compile : String → Option Pattern)
    (fullmatch : Pattern → String → Bool) where
  -- The pipeline hides what the patterns shown on the settings page match.
  abbrev pub IsConsistent : Service → Type 0
  IsConsistent a =
      (entity_id : String)
      → a.ingest.pipeline.hide entity_id ≡ any_pattern compile fullmatch entity_id a.hide_pattern

  pub hide_pattern-on_cfg_change :
      (patterns : List String) (a : Service) (cs : List Pattern)
      → hide_matcher compile patterns ≡ built cs
      → (on_cfg_change compile fullmatch patterns a).hide_pattern ≡ patterns
  unfolding on_cfg_change
  hide_pattern-on_cfg_change patterns a cs h = rw h refl

  -- Accepted patterns are what the pipeline hides by.
  pub hide-on_cfg_change :
      (patterns : List String) (a : Service) (cs : List Pattern)
      → hide_matcher compile patterns ≡ built cs
      → (entity_id : String)
      → (on_cfg_change compile fullmatch patterns a).ingest.pipeline.hide entity_id
        ≡ any_pattern compile fullmatch entity_id patterns
  unfolding on_cfg_change
  hide-on_cfg_change patterns a cs new =
      let accepted = hide_matcher-Accepted compile patterns cs new in
      let (cs', new', same) = hide_matcher-matches compile fullmatch patterns accepted in
      let e : cs ≡ cs' = cc in rw (new, e) same

  -- A change of the configuration, with patterns that are accepted or with others, leaves the
  -- pipeline hiding exactly what the patterns on display match.
  pub on_cfg_change-IsConsistent :
      (patterns : List String) (a : Service)
      → IsConsistent a
      → IsConsistent (on_cfg_change compile fullmatch patterns a)
  on_cfg_change-IsConsistent patterns a h = elim (Built-cases (hide_matcher compile patterns)) [
    | inl (cs, new) ↦
        rw (hide_pattern-on_cfg_change patterns a cs new) (hide-on_cfg_change patterns a cs new)
    | inr (x, bad) ↦ unfold on_cfg_change in rw bad h
  ]
