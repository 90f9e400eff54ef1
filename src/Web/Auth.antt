-- ===== src/Web/Auth.antt =====
-- The admin token of src/ai_ha/web/auth.py. The file system is the token file; `strip` is
-- `str.strip`, and the password comparison is that of texts.
pub mod Access
use ai_home_assistant.Prelude.{
  ℕ, String, Option, none, some, Bool, true, false, not, ◌||◌, if◌then◌else◌, ◌==◌, string_eq,
  map_option,
}

-- The text and the mode of the file, if it exists.
abbrev pub TokenFile : Type 0
TokenFile = Option (String × ℕ)

pub record HttpBasicCredentials : Type 0 where
  pub username : String
  pub password : String

-- `file_not_found` is the error of reading a token file that is not there.
pub data Verdict : Type 0 where
  granted auth_required auth_invalid file_not_found : Verdict

module _ (strip : String → String) where
  unfoldable pub read : TokenFile → Option String
  read file = map_option (λ e. strip e.0) file

  -- `fresh` is the text of `secrets.token_urlsafe(32)`; 384 is 0o600.
  unfoldable pub ensure_token : String → TokenFile → String × TokenFile
  ensure_token fresh none = (fresh, some (fresh, 384))
  ensure_token fresh (some e) = (strip e.0, some e)

  abbrev compare_password : String → Option String → Verdict
  compare_password password none = file_not_found
  compare_password password (some token) = if password == token then granted else auth_invalid

  unfoldable pub require_admin : Bool → Option HttpBasicCredentials → TokenFile → Verdict
  unfolding read
  require_admin false creds file = granted
  require_admin true none file = auth_required
  require_admin true (some c) file =
      if c.username == "admin" then compare_password c.password (read file) else auth_required
