-- ===== src/Store/Migrations/Names/Order.antt =====
-- The order of the names of migrations of src/ai_ha/store/db.py agrees with that of their numbers.
use Prim.Native.Char.{Char, code}
use Prim.Native.String.{[], ◌∷◌}
use ai_home_assistant.Prelude.{
  ℕ, ◌≤◌, ◌<◌, ◌⊎◌, ltb→lt, String, some, true, false, ◌≡◌, refl, ◌∙◌, sym, ap, arith, Bool-cases,
  inl, inr, ltb,
}
use ai_home_assistant.Store.Migrations.Names.{is_digit, number, file_version, name_le}

pub name_le_total : (s t : String) → name_le s t ≡ false → name_le t s ≡ true
unfolding name_le
name_le_total [] t h = cc
name_le_total (c ∷ s) [] h = refl
name_le_total (c ∷ s) (d ∷ t) h = ground (arith, name_le_total s t)

pub name_le_trans : (s t u : String) → name_le s t ≡ true → name_le t u ≡ true → name_le s u ≡ true
unfolding name_le
name_le_trans [] t u h k = refl
name_le_trans (c ∷ s) [] u h k = cc
name_le_trans (c ∷ s) (d ∷ t) [] h k = cc
name_le_trans (c ∷ s) (d ∷ t) (e ∷ u) h k = ground (arith, name_le_trans s t u, h, k)

-- A name that matches, taken apart.
record Named (v : ℕ) (name : String) : Type 0 where
  a : Char
  b : Char
  c : Char
  rest : String
  name_is : name ≡ a ∷ b ∷ c ∷ rest
  digits : (is_digit a ≡ true) × (is_digit b ≡ true) × (is_digit c ≡ true)
  version : v ≡ number a b c

file_version-Named : (v : ℕ) (name : String) → file_version name ≡ some v → Named v name
unfolding file_version
file_version-Named v [] h = cc
file_version-Named v (a ∷ []) h = cc
file_version-Named v (a ∷ b ∷ []) h = cc
file_version-Named v (a ∷ b ∷ c ∷ rest) h = record {
  a = a;
  b = b;
  c = c;
  rest = rest;
  name_is = refl;
  digits = ground (arith, h);
  version = ground (arith, h);
}

digit_bounds : (c : Char) → is_digit c ≡ true → (48 ≤ code c) × (code c ≤ 57)
digit_bounds c h = ground (arith, h)

-- The first difference decides.
name_le_step :
    (c d : Char) (s t : String)
    → name_le (c ∷ s) (d ∷ t) ≡ true
    → (code c < code d) ⊎ ((code c ≡ code d) × (name_le s t ≡ true))
unfolding name_le
name_le_step c d s t h = elim (Bool-cases (ltb (code c) (code d))) [
  | inl less ↦ inl (ltb→lt (code c) (code d) less)
  | inr more ↦ elim (Bool-cases (ltb (code d) (code c))) [
    | inl over ↦ absurd (let e : false ≡ true = rw (more, over) at h in cc)
    | inr same ↦ inr (ground arith, rw (more, same) at h)
  ]
]

number-name_le :
    (a b c d e f : Char) (s t : String)
    → (is_digit a ≡ true) × (is_digit b ≡ true) × (is_digit c ≡ true)
    → (is_digit d ≡ true) × (is_digit e ≡ true) × (is_digit f ≡ true)
    → name_le (a ∷ b ∷ c ∷ s) (d ∷ e ∷ f ∷ t) ≡ true
    → number a b c ≤ number d e f
number-name_le a b c d e f s t (ha, hb, hc) (hd, he, hf) le =
    let a' = digit_bounds a ha in
    let b' = digit_bounds b hb in
    let c' = digit_bounds c hc in
    let d' = digit_bounds d hd in
    let e' = digit_bounds e he in
    let f' = digit_bounds f hf in
    elim (name_le_step a d (b ∷ c ∷ s) (e ∷ f ∷ t) le) [
      | inl first ↦ omega arith
      | inr (p, le2) ↦ elim (name_le_step b e (c ∷ s) (f ∷ t) le2) [
        | inl second ↦ omega arith
        | inr (q, le3) ↦ elim (name_le_step c f s t le3) [
          | inl third ↦ omega arith
          | inr (r, le4) ↦ omega arith
        ]
      ]
    ]

pub version-name_le :
    (s t : String) (v w : ℕ)
    → file_version s ≡ some v
    → file_version t ≡ some w
    → name_le s t ≡ true
    → v ≤ w
version-name_le s t v w h k le =
    let m = file_version-Named v s h in
    let n = file_version-Named w t k in
    let le' : name_le (m.a ∷ m.b ∷ m.c ∷ m.rest) (n.a ∷ n.b ∷ n.c ∷ n.rest) ≡ true =
      ap (λ x. name_le x (n.a ∷ n.b ∷ n.c ∷ n.rest)) (sym m.name_is)
      ∙ ap (λ x. name_le s x) (sym n.name_is)
      ∙ le in
    rw (m.version, n.version)
      (number-name_le m.a m.b m.c n.a n.b n.c m.rest n.rest m.digits n.digits le')
