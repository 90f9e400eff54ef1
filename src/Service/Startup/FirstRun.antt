-- ===== src/Service/Startup/FirstRun.antt =====
-- The admin token at the start of src/ai_ha/main.py: what is printed, and the token file.
use ai_home_assistant.Prelude.{String, Option, none, some, true, ◌≡◌, refl, ◌↔◌, arith, string_eq}
use ai_home_assistant.Web.Auth.{
  TokenFile, HttpBasicCredentials, granted, ensure_token, require_admin,
}
use ai_home_assistant.Web.Auth.Access.{require_admin-ensure_token}

module _ (strip : String → String) where
  abbrev banner : TokenFile → String → Option String
  banner none token = some token
  banner (some e) token = none

  -- What is printed, and the file.
  unfoldable pub first_run : String → TokenFile → Option String × TokenFile
  first_run fresh file =
      let (token, file') = ensure_token strip fresh file in (banner file token, file')

  -- The token that the first start prints is what lets a caller in as "admin", where authentication
  -- is required, and a later start prints nothing and leaves the file as it is. A new token has no
  -- white space around it.
  pub first_run_admits :
      (fresh other : String) (c : HttpBasicCredentials)
      → strip fresh ≡ fresh
      → let (printed, file) = first_run fresh none in
        (first_run other file ≡ (none, file))
        × ((require_admin strip true (some c) file ≡ granted)
            ↔ ((c.username ≡ "admin") × (printed ≡ some c.password)))
  unfolding first_run ensure_token
  first_run_admits fresh other c h =
      let admits = require_admin-ensure_token strip fresh none c h in
      (
        refl,
        (
          (λ g. let (name, word) = admits.0 g in (name, rw word refl)),
          (λ k. admits.1 (k.0, let e = k.1 in ground (arith, e))),
        ),
      )
