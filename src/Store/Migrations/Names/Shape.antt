-- ===== src/Store/Migrations/Names/Shape.antt =====
-- What `_MIGRATION_PATTERN` of src/ai_ha/store/db.py asks of a name, in words of its own.
use Prim.Native.Char.{Char, code}
use Prim.Native.String.{[], ◌∷◌, ◌++◌}
use Prim.Native.String.append
use text.Mathlib.Text.{◌==◌ as str_eq}
use ai_home_assistant.Prelude.{
  ℕ, ◌+◌, ◌*◌, ◌-◌, ◌≤◌, String, some, true, ◌≡◌, refl, ◌∙◌, sym, ap, ◌↔◌, arith, Bool-cases, inl,
  inr, string_eq, beq_refl, eq_of_beq,
}
use ai_home_assistant.Prelude.Texts.{ends_with}
use ai_home_assistant.Store.Migrations.Names.{is_digit, is_rest, file_version}

-- Three digits, an underscore, anything, and ".sql".
pub record IsMigration (name : String) (v : ℕ) : Type 0 where
  pub hundreds : Char
  pub tens : Char
  pub units : Char
  pub underscore : Char
  pub middle : String
  pub name_is : name ≡ hundreds ∷ tens ∷ units ∷ underscore ∷ (middle ++ ".sql")
  pub hundreds_is : (48 ≤ code hundreds) × (code hundreds ≤ 57)
  pub tens_is : (48 ≤ code tens) × (code tens ≤ 57)
  pub units_is : (48 ≤ code units) × (code units ≤ 57)
  pub underscore_is : code underscore ≡ 95
  pub version : v ≡ 100 * (code hundreds - 48) + 10 * (code tens - 48) + (code units - 48)

ends_with-append :
    (suffix s : String) → ends_with suffix s ≡ true → (front : String) × (s ≡ front ++ suffix)
ends_with-append suffix [] h = ([], sym (append.nil suffix ∙ eq_of_beq suffix "" h))
ends_with-append suffix (c ∷ s) h = elim (Bool-cases (str_eq suffix (c ∷ s))) [
  | inl here ↦ ([], sym (append.nil suffix ∙ eq_of_beq suffix (c ∷ s) here))
  | inr later ↦
      let (front, e) = ends_with-append suffix s (rw later at h) in
      (c ∷ front, ap (λ t. c ∷ t) e ∙ sym (append.cons c front suffix))
]

ends_with_self : (s : String) → ends_with s s ≡ true
ends_with_self [] = beq_refl {A = String} ""
ends_with_self (c ∷ s) = let same = beq_refl {A = String} (c ∷ s) in rw same refl

append-ends_with : (suffix front : String) → ends_with suffix (front ++ suffix) ≡ true
append-ends_with suffix [] = rw (append.nil suffix) (ends_with_self suffix)
append-ends_with suffix (c ∷ front) =
    rw (append.cons c front suffix) (elim (Bool-cases (str_eq suffix (c ∷ (front ++ suffix)))) [
      | inl here ↦ rw here refl
      | inr later ↦ rw later (append-ends_with suffix front)
    ])

digit_iff : (c : Char) → (is_digit c ≡ true) ↔ ((48 ≤ code c) × (code c ≤ 57))
digit_iff c = ground arith

rest_parts :
    (s : String)
    → is_rest s ≡ true
    → (u : Char) × (t : String) × (s ≡ u ∷ t) × (code u ≡ 95) × (ends_with ".sql" t ≡ true)
rest_parts [] h = cc
rest_parts (u ∷ t) h = (u, t, refl, ground (arith, h), ground (arith, h))

-- The scan of a name finds exactly the names of that shape, with their number.
pub file_version-IsMigration :
    (name : String) (v : ℕ) → file_version name ≡ some v → IsMigration name v
unfolding file_version
file_version-IsMigration [] v h = cc
file_version-IsMigration (a ∷ []) v h = cc
file_version-IsMigration (a ∷ b ∷ []) v h = cc
file_version-IsMigration (a ∷ b ∷ c ∷ rest) v h =
    let good : is_rest rest ≡ true = ground (arith, h) in
    let (u, t, e, under, sql) = rest_parts rest good in
    let (middle, m) = ends_with-append ".sql" t sql in
    let da : is_digit a ≡ true = ground (arith, h) in
    let db : is_digit b ≡ true = ground (arith, h) in
    let dc : is_digit c ≡ true = ground (arith, h) in
    record {
      hundreds = a;
      tens = b;
      units = c;
      underscore = u;
      middle = middle;
      name_is = ap (λ x. a ∷ b ∷ c ∷ x) (e ∙ ap (λ x. u ∷ x) m);
      hundreds_is = (digit_iff a).0 da;
      tens_is = (digit_iff b).0 db;
      units_is = (digit_iff c).0 dc;
      underscore_is = under;
      version = ground (arith, h);
    }

pub IsMigration-file_version :
    (name : String) (v : ℕ) → IsMigration name v → file_version name ≡ some v
unfolding file_version
IsMigration-file_version name v m =
    let sql = append-ends_with ".sql" m.middle in
    let da = (digit_iff m.hundreds).1 m.hundreds_is in
    let db = (digit_iff m.tens).1 m.tens_is in
    let dc = (digit_iff m.units).1 m.units_is in
    rw (m.name_is, da, db, dc, m.underscore_is, sql, m.version) refl
