-- ===== src/Prelude/Texts.antt =====
-- Prefixes and suffixes of texts.
use Prim.Native.Char.{code}
use Prim.Native.Nat.{ℕ, zero, suc}
use Prim.Native.String.{String, [], ◌∷◌, ◌++◌}
use Prim.Native.String.append
use mathlib.Core.Path.{◌≡◌, ap, ◌∙◌}
use mathlib.Core.Bool.{Bool, ◌||◌}
use mathlib.Core.Option.{Option, none, some}
use text.Mathlib.Text.{◌==◌ as str_eq}
use ai_home_assistant.Prelude.Tests.{nat_beq, if◌then◌else◌}

-- What follows a prefix: `s[len(p):]` if `s.startswith(p)`.
abbrev pub after_prefix : String → String → Option String
after_prefix [] s = some s
after_prefix (c ∷ p) [] = none
after_prefix (c ∷ p) (d ∷ s) =
    let rest = after_prefix p s in if nat_beq (code c) (code d) then rest else none

-- `s.endswith(suffix)`
abbrev pub ends_with : String → String → Bool
ends_with suffix [] = str_eq suffix ""
ends_with suffix (c ∷ s) = str_eq suffix (c ∷ s) || ends_with suffix s

-- The first `n` characters of a text, and the rest.
abbrev pub split_at : ℕ → String → String × String
split_at zero s = ("", s)
split_at (suc n) [] = ("", "")
split_at (suc n) (c ∷ s) = let (front, back) = split_at n s in (c ∷ front, back)

pub split_at-append : (n : ℕ) (s : String) → (split_at n s).0 ++ (split_at n s).1 ≡ s
split_at-append zero s = append.nil s
split_at-append (suc n) [] = append.nil ""
split_at-append (suc n) (c ∷ s) =
    append.cons c (split_at n s).0 (split_at n s).1 ∙ ap (λ t. c ∷ t) (split_at-append n s)
