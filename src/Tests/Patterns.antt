-- ===== src/Tests/Patterns.antt =====
-- The guard and the matcher on some patterns. The engine here takes a pattern literally.
use ai_home_assistant.Prelude.{
  String, Option, none, some, Bool, true, false, if◌then◌else◌, [], ◌∷◌, ◌≡◌, refl, ◌==◌, string_eq,
  All, ◌↔◌,
}
use ai_home_assistant.Privacy.{
  in_group, is_quantifier, repeated, is_space, codes, redos_search, built, refused,
  pattern_complexity, hide_matcher,
}
use ai_home_assistant.Privacy.Guard.{IsNested, redos_search_iff}
use ai_home_assistant.Privacy.Matching.{Accepted}

abbrev literally : String → Option String
literally p = if p == "[" then none else some p

abbrev equals : String → String → Bool
equals p s = p == s

nested_plus : hide_matcher literally ("light.k" ∷ "(a+)+" ∷ []) ≡ refused pattern_complexity
unfolding hide_matcher redos_search in_group is_quantifier repeated is_space
nested_plus = refl

spaced_star : redos_search (codes "x(.*) *") ≡ true
unfolding redos_search in_group is_quantifier repeated is_space
spaced_star = refl

plain_group : redos_search (codes "(a|b)+c*") ≡ false
unfolding redos_search in_group is_quantifier repeated is_space
plain_group = refl

redos_search_iff_example : (redos_search (codes "(a+)+") ≡ true) ↔ IsNested (codes "(a+)+")
redos_search_iff_example = redos_search_iff (codes "(a+)+")

two-Accepted : All (Accepted literally) ("light.k" ∷ "sensor.x" ∷ [])
unfolding redos_search in_group is_quantifier repeated is_space
two-Accepted = ((refl, ("light.k", refl)), ((refl, ("sensor.x", refl)), tt))

one_built : hide_matcher literally ("light.k" ∷ []) ≡ built ("light.k" ∷ [])
unfolding hide_matcher redos_search in_group is_quantifier repeated is_space
one_built = refl
