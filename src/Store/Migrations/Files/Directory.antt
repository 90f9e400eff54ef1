-- ===== src/Store/Migrations/Files/Directory.antt =====
-- That the migrations which src/ai_ha/store/db.py takes of a directory are its files.
use ai_home_assistant.Prelude.{
  ℕ, Option, none, some, List, [], ◌∷◌, ◌≡◌, refl, sym, ap, ◌∙◌, ◌↔◌, ◌⊎◌, inl, inr, Bool-cases,
  Option-cases,
}
use mathlib.Core.List.{Memᴰ}
use mathlib.Core.List.Memᴰ.{head, tail}
use ai_home_assistant.Store.Migrations.{Migration}
use ai_home_assistant.Store.Migrations.Names.{file_version, name_le}
use ai_home_assistant.Store.Migrations.Names.Shape.{
  IsMigration, file_version-IsMigration, IsMigration-file_version,
}
use ai_home_assistant.Store.Migrations.Files.{
  File, insert_file, sort_files, numbered, matching, migrations_of,
}

module _ {Tables : Type 0} where
  mem-insert_file :
      (f x : File Tables) (ys : List (File Tables)) → Memᴰ f (insert_file x ys) ↔ Memᴰ f (x ∷ ys)
  unfolding insert_file
  mem-insert_file f x [] = (λ h. h, λ h. h)
  mem-insert_file f x (y ∷ ys) = elim (Bool-cases (name_le x.0 y.0)) [
    | inl here ↦ rw here (λ h. h, λ h. h)
    | inr later ↦ rw later (
      (λ h. elim h [
        | head e ↦ tail (head e)
        | tail t ↦ elim ((mem-insert_file f x ys).0 t) [ head e ↦ head e | tail u ↦ tail (tail u) ]
      ]),
      (λ h. elim h [
        | head e ↦ tail ((mem-insert_file f x ys).1 (head e))
        | tail t ↦ elim t [ head e ↦ head e | tail u ↦ tail ((mem-insert_file f x ys).1 (tail u)) ]
      ]),
    )
  ]

  mem-sort_files : (f : File Tables) (fs : List (File Tables)) → Memᴰ f (sort_files fs) ↔ Memᴰ f fs
  unfolding sort_files
  mem-sort_files f [] = (λ h. h, λ h. h)
  mem-sort_files f (x ∷ xs) =
      let at = mem-insert_file f x (sort_files xs) in
      let ih = mem-sort_files f xs in
      (
        (λ h. elim (at.0 h) [ head e ↦ head e | tail t ↦ tail (ih.0 t) ]),
        (λ h. at.1 (elim h [ head e ↦ head e | tail t ↦ tail (ih.1 t) ])),
      )

  -- The migration comes from a file of the directory whose name has the shape and the number.
  pub record IsFrom (fs : List (File Tables)) (m : Migration Tables) : Type 0 where
    pub file : File Tables
    pub listed : Memᴰ file fs
    pub named : IsMigration file.0 m.version
    pub text : file.1 ≡ m.script

  mem-numbered :
      (m : Migration Tables) (o : Option ℕ) (f : File Tables) (ms : List (Migration Tables))
      → Memᴰ m (numbered o f ms)
      → ((o ≡ some m.version) × (f.1 ≡ m.script)) ⊎ Memᴰ m ms
  mem-numbered m none f ms h = inr h
  mem-numbered m (some v) f ms (head k) = inl (
    ap (λ (n : Migration Tables). some n.version) (sym k),
    ap (λ (n : Migration Tables). n.script) (sym k),
  )
  mem-numbered m (some v) f ms (tail t) = inr t

  IsFrom-tail :
      (f : File Tables) (fs : List (File Tables)) (m : Migration Tables)
      → IsFrom fs m
      → IsFrom (f ∷ fs) m
  IsFrom-tail f fs m i = record {
    file = i.file;
    listed = tail i.listed;
    named = i.named;
    text = i.text;
  }

  mem-matching :
      (m : Migration Tables) (fs : List (File Tables)) → Memᴰ m (matching fs) → IsFrom fs m
  unfolding matching
  mem-matching m [] h = elim h [ ]
  mem-matching m (f ∷ fs) h = elim (mem-numbered m (file_version f.0) f (matching fs) h) [
    | inl (e, text) ↦ record {
      file = f;
      listed = head refl;
      named = file_version-IsMigration f.0 m.version e;
      text = text;
    }
    | inr t ↦ IsFrom-tail f fs m (mem-matching m fs t)
  ]

  matching-mem :
      (f : File Tables) (v : ℕ) (fs : List (File Tables))
      → file_version f.0 ≡ some v
      → Memᴰ f fs
      → Memᴰ (record { version = v; script = f.1 }) (matching fs)
  unfolding matching
  matching-mem f v [] e h = elim h [ ]
  matching-mem f v (g ∷ gs) e h = elim h [
    | head same ↦
        let k : file_version g.0 ≡ some v =
          ap (λ (x : File Tables). file_version x.0) (sym same) ∙ e in
        rw k (head (ap (λ (x : File Tables). record { version = v; script = x.1 }) same))
    | tail t ↦ elim (Option-cases (file_version g.0)) [
      | inl other ↦ rw other (matching-mem f v gs e t)
      | inr (w, k) ↦ rw k (tail (matching-mem f v gs e t))
    ]
  ]

  -- A migration that runs is one file of the directory, and each file with such a name is one.
  pub mem-migrations_of :
      (fs : List (File Tables)) (m : Migration Tables) → Memᴰ m (migrations_of fs) ↔ IsFrom fs m
  unfolding migrations_of
  mem-migrations_of fs m = (
    (λ h.
        let i = mem-matching m (sort_files fs) h in
        record {
          file = i.file;
          listed = (mem-sort_files i.file fs).0 i.listed;
          named = i.named;
          text = i.text;
        }),
    (λ i.
        let e = IsMigration-file_version i.file.0 m.version i.named in
        rw (← i.text) (
          matching-mem i.file m.version (sort_files fs) e ((mem-sort_files i.file fs).1 i.listed))),
  )
