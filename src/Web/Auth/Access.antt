-- ===== src/Web/Auth/Access.antt =====
-- Who gets in by src/ai_ha/web/auth.py.
use ai_home_assistant.Prelude.{String, none, some, true, ◌≡◌, refl, ◌↔◌, arith, string_eq}
use ai_home_assistant.Web.Auth.{
  TokenFile, HttpBasicCredentials, granted, ensure_token, read, require_admin,
}

module _ (strip : String → String) where
  -- Once the token is ensured, a caller gets in exactly with the user name "admin" and the token
  -- that was printed, whether the file was there or is new; a new token has no white space around
  -- it. Here the program requires authentication.
  pub require_admin-ensure_token :
      (fresh : String) (file : TokenFile) (c : HttpBasicCredentials)
      → strip fresh ≡ fresh
      → let (token, file') = ensure_token strip fresh file in
        (require_admin strip true (some c) file' ≡ granted)
        ↔ ((c.username ≡ "admin") × (c.password ≡ token))
  unfolding ensure_token require_admin read
  require_admin-ensure_token fresh none c h =
      ground (
        arith,
        string_eq.same_iff c.username "admin",
        string_eq.same_iff c.password (strip fresh),
        h,
      )
  require_admin-ensure_token fresh (some e) c h =
      ground
        (arith, string_eq.same_iff c.username "admin", string_eq.same_iff c.password (strip e.0))

  -- A second start reads the token of the first and leaves the file as it is.
  pub ensure_token_again :
      (fresh other : String) (file : TokenFile)
      → strip fresh ≡ fresh
      → ensure_token strip other (ensure_token strip fresh file).1 ≡ ensure_token strip fresh file
  unfolding ensure_token
  ensure_token_again fresh other none h = rw h refl
  ensure_token_again fresh other (some e) h = refl
