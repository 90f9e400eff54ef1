-- ===== src/Config/Loader/Sections.antt =====
-- `load_config` of src/ai_ha/config/loader.py, read on the sections of the file: which of them the
-- overrides reach, and what a configuration that was loaded comes from.
use ai_home_assistant.Prelude.{
  String, Option, none, some, ◌⊎◌, ◌≡◌, refl, ◌∙◌, ap, arith, inl, inr, string_eq, Option-cases,
}
use ai_home_assistant.Prelude.Int.{ℤ}
use ai_home_assistant.Config.Toml.{
  Value, Fields, text, decimal, integer, flag, array, table, end, find, set, find-set,
}
use ai_home_assistant.Config.Schema.{
  Pydantic, AppConfig, Sections, sections_of, app_config, model_validate,
}
use ai_home_assistant.Config.Schema.Reading.{Reads, app_config-Reads}
use ai_home_assistant.Config.Loader.Outcomes.{
  Loaded-cases, or_refused-loaded, and_then-loaded, and_then_assoc,
}
use ai_home_assistant.Config.Loader.{
  FileText, readable, undecodable, unreadable, Environ, invalid, Loaded, loaded, and_then, put_in,
  set_in, given, with_text, with_port, port_value, apply_env_overrides, load_config, or_refused,
}

-- The overrides, on the sections alone.
abbrev pub text_in : Option String → String → Option Value → Loaded (Option Value)
text_in none key v = loaded v
text_in (some s) key v = and_then (put_in v key (text s)) (λ w. loaded (some w))

sections-set_ha :
    (v : Value) (raw : Fields)
    → sections_of (set "ha" v raw) ≡ record (sections_of raw) { ha = some v }
unfolding sections_of
sections-set_ha v raw = simp find-set

sections-set_web :
    (v : Value) (raw : Fields)
    → sections_of (set "web" v raw) ≡ record (sections_of raw) { web = some v }
unfolding sections_of
sections-set_web v raw = simp find-set

pub sections-set_privacy :
    (v : Value) (raw : Fields)
    → sections_of (set "privacy" v raw) ≡ record (sections_of raw) { privacy = some v }
unfolding sections_of
sections-set_privacy v raw = simp find-set

-- A continuation that reads the sections only.
with_text-sections :
    {B : Type 0} (o : Option String) (key : String) (raw : Fields) (F : Fields → Loaded B)
    (K : Sections → Loaded B)
    → ((r : Fields) → F r ≡ K (sections_of r))
    → and_then (with_text o key raw) F
      ≡ and_then (text_in o key (sections_of raw).ha) (λ v. K (record (sections_of raw) { ha = v }))
unfolding set_in sections_of
with_text-sections none key raw F K same = same raw
with_text-sections (some s) key raw F K same =
    elim (Loaded-cases (put_in (find "ha" raw) key (text s))) [
      | inl (v, e) ↦ rw e (same (set "ha" v raw) ∙ ap K (sections-set_ha v raw))
      | inr (x, e) ↦ rw e refl
    ]

-- A section that was set is a table; `base` is what it was before, without the new entry.
pub put_in-loaded :
    (v : Option Value) (key : String) (value w : Value)
    → put_in v key value ≡ loaded w
    → (base : Fields) × (w ≡ table (set key value base))
      × ((v ≡ none) × (base ≡ end) ⊎ (v ≡ some (table base)))
unfolding put_in
put_in-loaded none key value w h = (end, cc, inl (refl, refl))
put_in-loaded (some (table fs)) key value w h = (fs, cc, inr refl)
put_in-loaded (some (text _)) key value w h = cc
put_in-loaded (some (decimal _)) key value w h = cc
put_in-loaded (some (integer _)) key value w h = cc
put_in-loaded (some (flag _)) key value w h = cc
put_in-loaded (some (array _)) key value w h = cc

-- Inversion of an override that sets a key.
pub set_to :
    (key : String) (value : Value) (v v' : Option Value)
    → and_then (put_in v key value) (λ w. loaded (some w)) ≡ loaded v'
    → (base : Fields) × (v' ≡ some (table (set key value base)))
set_to key value v v' h =
    let (w, e, r) = and_then-loaded (put_in v key value) (λ w. loaded (some w)) h in
    let (base, shape, _) = put_in-loaded v key value w e in
    let path : v' ≡ some w = cc in (base, path ∙ ap some shape)

-- The later override of the token keeps the url.
pub text_in-url :
    (o : Option String) (fs : Fields) (v' : Option Value)
    → text_in o "token" (some (table fs)) ≡ loaded v'
    → (fs' : Fields) × (v' ≡ some (table fs')) × (find "url" fs' ≡ find "url" fs)
unfolding put_in
text_in-url none fs v' h = (fs, cc, refl)
text_in-url (some s) fs v' h = (set "token" (text s) fs, cc, find-set "token" "url" (text s) fs)

module _ (int : String → Option ℤ) where
  abbrev pub port_in : Option String → Option Value → Loaded (Option Value)
  port_in none v = loaded v
  port_in (some s) v =
      and_then (port_value (int s)) (λ z. and_then (put_in v "port" z) (λ w. loaded (some w)))

  with_port-sections :
      {B : Type 0} (o : Option String) (raw : Fields) (F : Fields → Loaded B)
      (K : Sections → Loaded B)
      → ((r : Fields) → F r ≡ K (sections_of r))
      → and_then (with_port int o raw) F
        ≡ and_then (port_in o (sections_of raw).web) (λ v. K (record (sections_of raw) { web = v }))
  unfolding set_in sections_of
  with_port-sections none raw F K same = same raw
  with_port-sections (some s) raw F K same = elim (Option-cases (int s)) [
    | inl e ↦ rw e refl
    | inr (z, e) ↦ elim (Loaded-cases (put_in (find "web" raw) "port" (integer z))) [
      | inl (v, f) ↦ rw (e, f) (same (set "web" v raw) ∙ ap K (sections-set_web v raw))
      | inr (x, f) ↦ rw (e, f) refl
    ]
  ]

  -- The three overrides on the sections, then what is read of them.
  abbrev pub overridden : {B : Type 0} → Environ → Sections → (Sections → Loaded B) → Loaded B
  overridden env secs K = and_then (text_in (given env.ha_url) "url" secs.ha) (λ v1.
      and_then (text_in (given env.ha_token) "token" v1) (λ v2.
        and_then (port_in (given env.ai_ha_web_port) secs.web)
          (λ p. K (record secs { ha = v2; web = p }))))

  overrides-sections :
      {B : Type 0} (env : Environ) (raw : Fields) (F : Fields → Loaded B) (K : Sections → Loaded B)
      → ((r : Fields) → F r ≡ K (sections_of r))
      → and_then (apply_env_overrides int env raw) F ≡ overridden env (sections_of raw) K
  unfolding apply_env_overrides
  overrides-sections env raw F K same =
      let port = given env.ai_ha_web_port in
      let token = given env.ha_token in
      let F2 : Fields → Loaded _ = λ r. and_then (with_port int port r) F in
      let K2 : Sections → Loaded _ =
        λ secs. and_then (port_in port secs.web) (λ p. K (record secs { web = p })) in
      let F1 : Fields → Loaded _ =
        λ r. and_then (and_then (with_text token "token" r) (with_port int port)) F in
      let K1 : Sections → Loaded _ =
        λ secs. and_then (text_in token "token" secs.ha) (λ v. K2 (record secs { ha = v })) in
      let step2 : (r : Fields) → F2 r ≡ K2 (sections_of r) =
        λ r. with_port-sections port r F K same in
      let step1 : (r : Fields) → F1 r ≡ K1 (sections_of r) = λ r.
        and_then_assoc (with_text token "token" r) (with_port int port) F
        ∙ with_text-sections token "token" r F2 K2 step2 in
      and_then_assoc (with_text (given env.ha_url) "url" raw)
        (λ r. and_then (with_text token "token" r) (with_port int port)) F
      ∙ with_text-sections (given env.ha_url) "url" raw F1 K1 step1

  module _ {Float : Type 0} (py : Pydantic Float) (loads : String → Option Fields) where
    abbrev pub read_sections : Sections → Loaded (AppConfig Float)
    read_sections s = or_refused invalid (app_config py s)

    -- A configuration that was loaded: its file, and the sections that were read.
    pub record Comes (env : Environ) (file : FileText) (cfg : AppConfig Float) : Type 0 where
      pub body : String
      pub raw : Fields
      pub has_text : file ≡ readable body
      pub parsed : loads body ≡ some raw
      pub over : overridden env (sections_of raw) read_sections ≡ loaded cfg

    pub load_config-sections :
        (env : Environ) (body : String) (raw : Fields)
        → loads body ≡ some raw
        → load_config int py loads env (readable body)
          ≡ overridden env (sections_of raw) read_sections
    unfolding load_config model_validate
    load_config-sections env body raw e = rw e (
        overrides-sections env raw (λ r. or_refused invalid (model_validate py r)) read_sections
          (λ r. refl))

    -- A configuration that was loaded comes from sections that were read after the overrides.
    pub load_config-Comes :
        (env : Environ) (file : FileText) (cfg : AppConfig Float)
        → load_config int py loads env file ≡ loaded cfg
        → Comes env file cfg
    load_config-Comes env unreadable cfg h = absurd (unfold load_config in cc)
    load_config-Comes env undecodable cfg h = absurd (unfold load_config in cc)
    load_config-Comes env (readable body) cfg h = elim (Option-cases (loads body)) [
      | inl e ↦ absurd (unfold load_config in ground (arith, e))
      | inr (raw, e) ↦ record {
        body = body;
        raw = raw;
        has_text = refl;
        parsed = e;
        over = rw (load_config-sections env body raw e) at h;
      }
    ]

    -- The sections after the overrides.
    pub record Steps (env : Environ) (secs : Sections) (cfg : AppConfig Float) : Type 0 where
      pub v1 : Option Value
      pub v2 : Option Value
      pub p : Option Value
      pub url_step : text_in (given env.ha_url) "url" secs.ha ≡ loaded v1
      pub token_step : text_in (given env.ha_token) "token" v1 ≡ loaded v2
      pub port_step : port_in (given env.ai_ha_web_port) secs.web ≡ loaded p
      pub reads : Reads py (record secs { ha = v2; web = p }) cfg

    pub overridden-Steps :
        (env : Environ) (secs : Sections) (cfg : AppConfig Float)
        → overridden env secs read_sections ≡ loaded cfg
        → Steps env secs cfg
    overridden-Steps env secs cfg h =
        let (v1, e1, r1) = and_then-loaded (text_in (given env.ha_url) "url" secs.ha) _ h in
        let (v2, e2, r2) = and_then-loaded (text_in (given env.ha_token) "token" v1) _ r1 in
        let (p, e3, r3) = and_then-loaded (port_in (given env.ai_ha_web_port) secs.web) _ r2 in
        let s : Sections = record secs { ha = v2; web = p } in
        record {
          v1 = v1;
          v2 = v2;
          p = p;
          url_step = e1;
          token_step = e2;
          port_step = e3;
          reads = app_config-Reads py s cfg (or_refused-loaded invalid (app_config py s) cfg r3);
        }
