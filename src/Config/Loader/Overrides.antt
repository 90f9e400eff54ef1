-- ===== src/Config/Loader/Overrides.antt =====
-- What the environment changes of a configuration of src/ai_ha/config/loader.py.
use ai_home_assistant.Prelude.{
  String, Option, none, some, ◌≡◌, refl, ◌∙◌, sym, inl, inr, string_eq, Option-cases,
}
use ai_home_assistant.Prelude.Int.{ℤ}
use ai_home_assistant.Config.Toml.{Fields, text, integer, find, set, find-set}
use ai_home_assistant.Config.Schema.{Pydantic, AppConfig, Sections, sections_of}
use ai_home_assistant.Config.Schema.Reading.{ha_config-Reads, web_config-Reads, read_text}
use ai_home_assistant.Config.Loader.{FileText, Environ, loaded, given, load_config}
use ai_home_assistant.Config.Loader.Sections.{
  set_to, text_in-url, Steps, load_config-Comes, overridden-Steps,
}

-- The value of a variable, or else what is there.
abbrev pub overriding : {A : Type 0} → Option A → A → A
overriding none x = x
overriding (some a) x = a

abbrev pub port_of : (String → Option ℤ) → Option String → Option ℤ
port_of int none = none
port_of int (some s) = int s

module _ (int : String → Option ℤ) {Float : Type 0} (py : Pydantic Float)
    (loads : String → Option Fields) where
  module _ (env : Environ) (secs : Sections) (cfg : AppConfig Float)
      (k : Steps int py loads env secs cfg) where
    url_wins :
        ((s : String) → py.as_str (text s) ≡ some s)
        → overriding (given env.ha_url) cfg.ha.url ≡ cfg.ha.url
    url_wins as_is = elim (Option-cases (given env.ha_url)) [
      | inl e ↦ rw e refl
      | inr (u, e) ↦
          let (base, v1) = set_to "url" (text u) secs.ha k.v1 (rw e at k.url_step) in
          let (fs, v2, same) =
            text_in-url (given env.ha_token) (set "url" (text u) base) k.v2
              (rw v1 at k.token_step) in
          let there : find "url" fs ≡ some (text u) = same ∙ find-set "url" "url" (text u) base in
          let reads = ha_config-Reads py fs cfg.ha (rw v2 at k.reads.ha) in
          rw e (sym (read_text py "url" fs u cfg.ha.url there (as_is u) reads.url))
    ]

    token_wins :
        ((s : String) → py.as_str (text s) ≡ some s)
        → overriding (given env.ha_token) cfg.ha.token ≡ cfg.ha.token
    token_wins as_is = elim (Option-cases (given env.ha_token)) [
      | inl e ↦ rw e refl
      | inr (t, e) ↦
          let (base, v2) = set_to "token" (text t) k.v1 k.v2 (rw e at k.token_step) in
          let fs = set "token" (text t) base in
          let there : find "token" fs ≡ some (text t) = find-set "token" "token" (text t) base in
          let reads = ha_config-Reads py fs cfg.ha (rw v2 at k.reads.ha) in
          rw e (sym (read_text py "token" fs t cfg.ha.token there (as_is t) reads.token))
    ]

    port_wins :
        ((z : ℤ) → py.as_int (integer z) ≡ some z)
        → overriding (port_of int (given env.ai_ha_web_port)) cfg.web.port ≡ cfg.web.port
    port_wins as_is = elim (Option-cases (given env.ai_ha_web_port)) [
      | inl e ↦ rw e refl
      | inr (s, e) ↦ elim (Option-cases (int s)) [
        | inl bad ↦ absurd (let stuck = rw (e, bad) at k.port_step in cc)
        | inr (z, good) ↦
            let (base, p) = set_to "port" (integer z) secs.web k.p (rw (e, good) at k.port_step) in
            let fs = set "port" (integer z) base in
            let there : find "port" fs ≡ some (integer z) =
              find-set "port" "port" (integer z) base in
            let reads = web_config-Reads py fs cfg.web (rw p at k.reads.web) in
            let read : some z ≡ some cfg.web.port = sym (as_is z) ∙ (rw there at reads.port) in
            rw (e, good) (let same : z ≡ cfg.web.port = cc in same)
      ]
    ]

  -- In a configuration that was loaded, the url, the token and the port are those of the variables
  -- that are set and not empty. pydantic takes a text and an integer as they are.
  pub load_config-overriding :
      (env : Environ) (file : FileText) (cfg : AppConfig Float)
      → ((s : String) → py.as_str (text s) ≡ some s)
      → ((z : ℤ) → py.as_int (integer z) ≡ some z)
      → load_config int py loads env file ≡ loaded cfg
      → (overriding (given env.ha_url) cfg.ha.url ≡ cfg.ha.url)
        × (overriding (given env.ha_token) cfg.ha.token ≡ cfg.ha.token)
        × (overriding (port_of int (given env.ai_ha_web_port)) cfg.web.port ≡ cfg.web.port)
  load_config-overriding env file cfg as_is int_as_is h =
      let c = load_config-Comes int py loads env file cfg h in
      let secs = sections_of c.raw in
      let k = overridden-Steps int py loads env secs cfg c.over in
      (
        url_wins env secs cfg k as_is,
        token_wins env secs cfg k as_is,
        port_wins env secs cfg k int_as_is,
      )
