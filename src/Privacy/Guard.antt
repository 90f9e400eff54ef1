-- ===== src/Privacy/Guard.antt =====
-- What the complexity guard of src/ai_ha/privacy/hide_matcher.py refuses.
use ai_home_assistant.Prelude.{
  ℕ, Bool, true, false, ◌||◌, List, [], ◌∷◌, ◌++◌, ◌≡◌, refl, arith, ap, inl, inr, ◌↔◌, nat_beq,
  nat_beq_iff, any, All, Bool-cases,
}
use ai_home_assistant.Privacy.{
  is_space, is_quantifier, repeated, in_group, any_repeated, prone_here, redos_search,
}

abbrev Inside : List ℕ → Type 0
Inside = All (λ c. nat_beq c b')' ≡ false)

abbrev Spaces : List ℕ → Type 0
Spaces = All (λ c. is_space c ≡ true)

-- `sp q post`: white space, then a quantifier.
pub record Repeated (s : List ℕ) : Type 0 where
  pub sp : List ℕ
  pub q : ℕ
  pub post : List ℕ
  pub blank : Spaces sp
  pub quantifier : is_quantifier q ≡ true
  pub shape : s ≡ sp ++ q ∷ post

-- `mid ) sp q post`, with no `)` in the middle.
pub record Group (s : List ℕ) : Type 0 where
  pub mid : List ℕ
  pub rest : List ℕ
  pub closed : Inside mid
  pub again : Repeated rest
  pub shape : s ≡ mid ++ b')' ∷ rest

-- A text with a group that holds a quantifier and is itself repeated: `pre ( mid ) sp q post`.
pub record IsNested (s : List ℕ) : Type 0 where
  pub pre : List ℕ
  pub tail : List ℕ
  pub group : Group tail
  pub holds_quantifier : any is_quantifier group.mid ≡ true
  pub shape : s ≡ pre ++ b'(' ∷ tail

quantifier-not_space : (c : ℕ) → is_quantifier c ≡ true → is_space c ≡ false
unfolding is_quantifier is_space
quantifier-not_space c h = ground arith

repeated-Repeated : (s : List ℕ) → repeated s ≡ true → Repeated s
unfolding repeated
repeated-Repeated [] h = cc
repeated-Repeated (c ∷ s) h = elim (Bool-cases (is_space c)) [
  | inl blank ↦
      let r = repeated-Repeated s (rw blank at h) in
      record {
        sp = c ∷ r.sp;
        q = r.q;
        post = r.post;
        blank = (blank, r.blank);
        quantifier = r.quantifier;
        shape = ap (◌∷◌ c) r.shape;
      }
  | inr no_blank ↦ record {
    sp = [];
    q = c;
    post = s;
    blank = tt;
    quantifier = (rw no_blank at h);
    shape = refl;
  }
]

repeated_lem :
    (sp : List ℕ) (q : ℕ) (post : List ℕ)
    → Spaces sp
    → is_quantifier q ≡ true
    → repeated (sp ++ q ∷ post) ≡ true
unfolding repeated
repeated_lem [] q post b h = ground (arith, quantifier-not_space q)
repeated_lem (c ∷ sp) q post b h = ground (arith, repeated_lem sp q post b.1 h)

in_group-Group :
    (seen : Bool) (s : List ℕ)
    → in_group seen s ≡ true
    → (g : Group s) × ((seen || any is_quantifier g.mid) ≡ true)
unfolding in_group
in_group-Group seen [] h = cc
in_group-Group seen (c ∷ s) h = elim (Bool-cases (nat_beq c b')')) [
  | inl close ↦
      let paren : c ≡ b')' = (nat_beq_iff c b')').0 close in
      (
        record {
          mid = [];
          rest = s;
          closed = tt;
          again = repeated-Repeated s (ground arith);
          shape = ap (λ x. x ∷ s) paren;
        },
        ground arith,
      )
  | inr other ↦
      let (g, e) = in_group-Group (seen || is_quantifier c) s (ground arith) in
      (
        record {
          mid = c ∷ g.mid;
          rest = g.rest;
          closed = (other, g.closed);
          again = g.again;
          shape = ap (◌∷◌ c) g.shape;
        },
        ground arith,
      )
]

in_group_lem :
    (seen : Bool) (mid rest : List ℕ)
    → Inside mid
    → repeated rest ≡ true
    → (seen || any is_quantifier mid) ≡ true
    → in_group seen (mid ++ b')' ∷ rest) ≡ true
unfolding in_group
in_group_lem seen [] rest i r h = ground arith
in_group_lem seen (c ∷ mid) rest i r h =
    ground (arith, in_group_lem (seen || is_quantifier c) mid rest i.1 r)

-- The second alternative of the guard's expression accepts nothing that the first does not.
any_repeated-in_group :
    (c : ℕ) (s : List ℕ)
    → any_repeated (c ∷ s) ≡ true
    → (nat_beq c b'(' ≡ true) × (in_group false s ≡ true)
unfolding any_repeated in_group is_quantifier
any_repeated-in_group a (b ∷ c ∷ d ∷ s) h = ground arith
any_repeated-in_group a [] h = cc
any_repeated-in_group a (b ∷ []) h = cc
any_repeated-in_group a (b ∷ c ∷ []) h = cc

prone_here-group :
    (c : ℕ) (s : List ℕ)
    → prone_here (c ∷ s) ≡ true
    → (nat_beq c b'(' ≡ true) × (in_group false s ≡ true)
unfolding prone_here
prone_here-group c s h = ground (arith, any_repeated-in_group c s)

redos_search-append : (pre s : List ℕ) → redos_search s ≡ true → redos_search (pre ++ s) ≡ true
unfolding redos_search
redos_search-append [] s h = h
redos_search-append (c ∷ pre) s h = ground (arith, redos_search-append pre s h)

redos_search-IsNested : (s : List ℕ) → redos_search s ≡ true → IsNested s
unfolding redos_search
redos_search-IsNested [] h = cc
redos_search-IsNested (c ∷ s) h = elim (Bool-cases (prone_here (c ∷ s))) [
  | inl here ↦
      let (paren, grouped) = prone_here-group c s here in
      let (g, quantified) = in_group-Group false s grouped in
      record {
        pre = [];
        tail = s;
        group = g;
        holds_quantifier = quantified;
        shape = ap (λ x. x ∷ s) ((nat_beq_iff c b'(').0 paren);
      }
  | inr later ↦
      let n = redos_search-IsNested s (ground arith) in
      record {
        pre = c ∷ n.pre;
        tail = n.tail;
        group = n.group;
        holds_quantifier = n.holds_quantifier;
        shape = ap (◌∷◌ c) n.shape;
      }
]

Repeated-repeated : {s : List ℕ} → Repeated s → repeated s ≡ true
Repeated-repeated r = rw r.shape (repeated_lem r.sp r.q r.post r.blank r.quantifier)

IsNested-redos_search : {s : List ℕ} → IsNested s → redos_search s ≡ true
unfolding redos_search prone_here
IsNested-redos_search {s} n =
    let g = n.group in
    let grouped : in_group false n.tail ≡ true =
      rw g.shape
        (in_group_lem false g.mid g.rest g.closed (Repeated-repeated g.again) n.holds_quantifier) in
    rw n.shape (redos_search-append n.pre (b'(' ∷ n.tail) (ground arith))

-- The guard's expression is found in a text exactly when the text holds a group with a quantifier
-- inside and, past white space, a quantifier after it: `( mid ) sp q` with no `)` in `mid`.
pub redos_search_iff : (s : List ℕ) → (redos_search s ≡ true) ↔ IsNested s
redos_search_iff s = (redos_search-IsNested s, IsNested-redos_search)
