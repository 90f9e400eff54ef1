-- ===== src/Privacy/Matching.antt =====
-- When a matcher of src/ai_ha/privacy/hide_matcher.py is built, and what it then hides.
use ai_home_assistant.Prelude.{
  String, Option, none, some, Bool, false, List, [], ◌∷◌, ◌≡◌, refl, arith, ◌⊎◌, inl, inr, any, All,
  Bool-cases, Option-cases,
}
use ai_home_assistant.Privacy.{
  codes, redos_search, PatternError, Built, built, refused, hide_matcher, matches,
}

abbrev pub any_pattern :
    {Pattern : Type 0}
    → (String → Option Pattern)
    → (Pattern → String → Bool)
    → String
    → List String
    → Bool
any_pattern compile fullmatch entity_id =
    any (λ p. elim (compile p) [ none ↦ false | some c ↦ fullmatch c entity_id ])

pub Built-cases {ℓ} :
    {A : Type ℓ} (r : Built A) → ((a : A) × (r ≡ built a)) ⊎ ((x : PatternError) × (r ≡ refused x))
Built-cases (built a) = inl (a, refl)
Built-cases (refused x) = inr (x, refl)

-- A pattern that neither the guard nor the engine refuses.
abbrev pub Accepted : {Pattern : Type 0} → (String → Option Pattern) → String → Type 0
Accepted {Pattern} compile p =
    (redos_search (codes p) ≡ false) × ((c : Pattern) × (compile p ≡ some c))

module _ {Pattern : Type 0} (compile : String → Option Pattern)
    (fullmatch : Pattern → String → Bool) where
  -- When every pattern is accepted the matcher is built, and it hides an id exactly when one of
  -- the patterns, compiled, matches the whole id.
  pub hide_matcher-matches :
      (ps : List String)
      → All (Accepted compile) ps
      → (cs : List Pattern) × (hide_matcher compile ps ≡ built cs)
        × ((entity_id : String)
            → matches fullmatch cs entity_id ≡ any_pattern compile fullmatch entity_id ps)
  unfolding hide_matcher matches
  hide_matcher-matches [] a = ([], refl, λ entity_id. refl)
  hide_matcher-matches (p ∷ ps) a =
      let (cs, e, m) = hide_matcher-matches ps a.1 in
      let (c, ok_c) = a.0.1 in
      (c ∷ cs, rw (a.0.0, ok_c, e), λ entity_id. ground (arith, m entity_id))

module _ {Pattern : Type 0} (compile : String → Option Pattern) where
  -- A matcher that was built was built from accepted patterns only.
  pub hide_matcher-Accepted :
      (ps : List String) (cs : List Pattern)
      → hide_matcher compile ps ≡ built cs
      → All (Accepted compile) ps
  unfolding hide_matcher
  hide_matcher-Accepted [] cs h = tt
  hide_matcher-Accepted (p ∷ ps) cs h = elim (Bool-cases (redos_search (codes p))) [
    | inl prone ↦ absurd (ground arith)
    | inr fine ↦ elim (Option-cases (compile p)) [
      | inl bad ↦ absurd (ground arith)
      | inr (c, e) ↦ elim (Built-cases (hide_matcher compile ps)) [
        | inl (rest, r) ↦ ((fine, (c, e)), hide_matcher-Accepted ps rest r)
        | inr (x, r) ↦ absurd (ground arith)
      ]
    ]
  ]
