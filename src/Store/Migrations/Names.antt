-- ===== src/Store/Migrations/Names.antt =====
-- The names of the files of migrations, as `_MIGRATION_PATTERN` of src/ai_ha/store/db.py takes
-- them. The digits of a name are those of ASCII, and a name has no line break.
pub mod Order
pub mod Shape
use Prim.Native.Char.{Char, code}
use Prim.Native.String.{[], ◌∷◌}
use ai_home_assistant.Prelude.{
  ℕ, ◌+◌, ◌*◌, ◌-◌, String, Option, none, some, Bool, true, false, ◌&&◌, if◌then◌else◌, leb, ltb,
}
use ai_home_assistant.Prelude.Texts.{ends_with}

abbrev pub is_digit : Char → Bool
is_digit c = leb 48 (code c) && leb (code c) 57

-- `int` of three digits.
abbrev pub number : Char → Char → Char → ℕ
number a b c = 100 * (code a - 48) + 10 * (code b - 48) + (code c - 48)

-- What follows the digits: an underscore, anything, and ".sql".
abbrev pub is_rest : String → Bool
is_rest [] = false
is_rest (c ∷ s) = leb 95 (code c) && leb (code c) 95 && ends_with ".sql" s

abbrev pub three_digits : Char → Char → Char → String → Option ℕ
three_digits a b c s =
    if is_digit a && is_digit b && is_digit c && is_rest s then some (number a b c) else none

abbrev after_two : Char → Char → String → Option ℕ
after_two a b [] = none
after_two a b (c ∷ s) = three_digits a b c s

abbrev after_one : Char → String → Option ℕ
after_one a [] = none
after_one a (b ∷ s) = after_two a b s

-- The number of a name that `_MIGRATION_PATTERN` matches.
unfoldable pub file_version : String → Option ℕ
file_version [] = none
file_version (a ∷ s) = after_one a s

-- The order of texts, by their code points.
unfoldable pub name_le : String → String → Bool
name_le [] t = true
name_le (c ∷ s) [] = false
name_le (c ∷ s) (d ∷ t) =
    let rest = name_le s t in
    if ltb (code c) (code d) then true else if ltb (code d) (code c) then false else rest
