-- ===== src/Privacy.antt =====
-- `HideMatcher` of src/ai_ha/privacy/hide_matcher.py. The regular-expression engine is a parameter,
-- but for the guard's own expression, which is written out here.
pub mod Guard
pub mod Matching
use Prim.Native.Char.{code}
use Prim.Native.String
use ai_home_assistant.Prelude.{
  ℕ, String, Option, none, some, Bool, true, false, ◌||◌, ◌&&◌, List, [], ◌∷◌, if◌then◌else◌,
  nat_beq, leb, any,
}

-- The code points of a text.
abbrev pub codes : String → List ℕ
codes String.[] = []
codes (String.◌∷◌ c s) = code c ∷ codes s

-- `\s` of a text pattern: what `str.isspace` accepts.
unfoldable pub is_space : ℕ → Bool
is_space c =
    (leb 9 c && leb c 13)
    || (leb 28 c && leb c 32)
    || nat_beq c 133
    || nat_beq c 160
    || nat_beq c 5760
    || (leb 8192 c && leb c 8202)
    || nat_beq c 8232
    || nat_beq c 8233
    || nat_beq c 8239
    || nat_beq c 8287
    || nat_beq c 12288

-- `[+*]`
unfoldable pub is_quantifier : ℕ → Bool
is_quantifier c = nat_beq c b'+' || nat_beq c b'*'

-- `\s*[+*]`, from here
unfoldable pub repeated : List ℕ → Bool
repeated [] = false
repeated (c ∷ s) = let rest = repeated s in if is_space c then rest else is_quantifier c

-- `[^)]*[+*][^)]*\)\s*[+*]`, from here; `seen` says that a quantifier has been met.
unfoldable pub in_group : Bool → List ℕ → Bool
in_group seen [] = false
in_group seen (c ∷ s) =
    let rest = in_group (seen || is_quantifier c) s in
    if nat_beq c b')' then (if seen then repeated s else false) else rest

-- `\(\.\*\)\s*[+*]`, from here
unfoldable pub any_repeated : List ℕ → Bool
any_repeated (a ∷ b ∷ c ∷ d ∷ s) =
    nat_beq a b'(' && nat_beq b b'.' && nat_beq c b'*' && nat_beq d b')' && repeated s
any_repeated _ = false

-- The expression of `_REDOS_RE`, from here.
unfoldable pub prone_here : List ℕ → Bool
unfolding any_repeated
prone_here [] = false
prone_here (c ∷ s) = (nat_beq c b'(' && in_group false s) || any_repeated (c ∷ s)

-- `_REDOS_RE.search(pattern)`
unfoldable pub redos_search : List ℕ → Bool
unfolding prone_here
redos_search [] = false
redos_search (c ∷ s) = let rest = redos_search s in if prone_here (c ∷ s) then true else rest

pub data PatternError : Type 0 where
  pattern_complexity re_error : PatternError

pub data Built {ℓ} (A : Type ℓ) : Type ℓ where
  built : A → Built A
  refused : PatternError → Built A

module _ {Pattern : Type 0} (compile : String → Option Pattern) where
  abbrev consed : Pattern → Built (List Pattern) → Built (List Pattern)
  consed c (built cs) = built (c ∷ cs)
  consed c (refused x) = refused x

  abbrev compiled : Option Pattern → Built (List Pattern) → Built (List Pattern)
  compiled none rest = refused re_error
  compiled (some c) rest = consed c rest

  -- `HideMatcher.__init__`: the first pattern that the guard or the engine refuses raises.
  unfoldable pub hide_matcher : List String → Built (List Pattern)
  unfolding redos_search
  hide_matcher [] = built []
  hide_matcher (p ∷ ps) =
      let rest = hide_matcher ps in
      if redos_search (codes p) then refused pattern_complexity else compiled (compile p) rest

-- `matches`
unfoldable pub matches :
    {Pattern : Type 0} → (Pattern → String → Bool) → List Pattern → String → Bool
matches fullmatch cs entity_id = any (λ c. fullmatch c entity_id) cs
