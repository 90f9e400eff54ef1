-- ===== src/Archive/View.antt =====
-- What a file of the archive of src/ai_ha/archive/jsonl_writer.py holds, the text that the buffer of
-- the open file holds back included, and the operations that leave it as it is.
use Prim.Native.String.{◌++◌}
use Prim.Native.String.append
use text.Mathlib.TextLemmas.{append-nil, append_assoc}
use ai_home_assistant.Prelude.{
  ℕ, String, Option, none, some, Bool, true, false, ◌≡◌, refl, ◌∙◌, sym, ap, inl, inr, ◌==◌,
  string_eq, if◌then◌else◌, Bool-cases, eq_of_beq, Option-cases,
}
use ai_home_assistant.Prelude.Dict.{Dict, get, alter, get-alter}
use ai_home_assistant.Prelude.Texts.{split_at, split_at-append}
use ai_home_assistant.Archive.{
  Handle, JsonlWriter, path_for_day, added, written_out, opened, emptied, flush, close, spill,
}

-- The text that has been written to a file, and what its buffer adds to it.
abbrev pub text_of : Option String → String
text_of none = ""
text_of (some s) = s

abbrev pub on_disk : String → JsonlWriter → String
on_disk path j = text_of (get path j.files)

abbrev pub waiting : String → Option Handle → String
waiting path none = ""
waiting path (some h) = if h.path == path then h.pending else ""

abbrev pub contents : String → JsonlWriter → String
contents path j = on_disk path j ++ waiting path j.handle

ruleset text_laws = (append-nil, append_assoc, append.nil)

if_empty : (b : Bool) → ◌≡◌ {A = String} (if b then "" else "") ""
if_empty true = refl
if_empty false = refl

text_of_added_lem :
    (text : String) (o : Option String) → text_of (some (added text o)) ≡ text_of o ++ text
text_of_added_lem text none = sym (append.nil text)
text_of_added_lem text (some s) = refl

text_of-alter :
    (path at text : String) (files : Dict String String)
    → text_of (get path (alter at (added text) files))
      ≡ text_of (get path files) ++ (if at == path then text else "")
text_of-alter path at text files =
    rw (get-alter at path (added text) files) (elim (Bool-cases (at == path)) [
      | inl same ↦
          let here : get at files ≡ get path files =
            ap (λ k. get k files) (eq_of_beq at path same) in
          rw (same, here) (text_of_added_lem text (get path files))
      | inr other ↦ rw other (sym (append-nil (text_of (get path files))))
    ])

pub text_of-written_out :
    (path : String) (o : Option Handle) (files : Dict String String)
    → text_of (get path (written_out o files)) ≡ text_of (get path files) ++ waiting path o
text_of-written_out path none files = sym (append-nil (text_of (get path files)))
text_of-written_out path (some h) files = text_of-alter path h.path h.pending files

waiting-emptied : (path : String) (o : Option Handle) → waiting path (emptied o) ≡ ""
waiting-emptied path none = refl
waiting-emptied path (some h) = if_empty (h.path == path)

pub contents-flush : (path : String) (j : JsonlWriter) → contents path (flush j) ≡ contents path j
unfolding flush
contents-flush path j =
    rw (text_of-written_out path j.handle j.files, waiting-emptied path j.handle)
      (append-nil (on_disk path j ++ waiting path j.handle))

pub contents-close : (path : String) (j : JsonlWriter) → contents path (close j) ≡ contents path j
unfolding close
contents-close path j = elim (Option-cases j.handle) [
  | inl e ↦ rw e refl
  | inr (h, e) ↦ rw e (append-nil _ ∙ text_of-written_out path (some h) j.files)
]

pub contents-opened :
    (path day : String) (j : JsonlWriter) → contents path (opened day j) ≡ contents path j
contents-opened path day j =
    let file = path_for_day j.compress day in
    rw
      (
        text_of-alter path file "" (written_out j.handle j.files),
        if_empty (file == path),
        text_of-written_out path j.handle j.files,
      )
      (simp text_laws)

pub contents-spill :
    (path : String) (n : ℕ) (j : JsonlWriter) → contents path (spill n j) ≡ contents path j
unfolding spill
contents-spill path n j = elim (Option-cases j.handle) [
  | inl e ↦ rw e refl
  | inr (h, e) ↦
      rw (e, text_of-alter path h.path (split_at n h.pending).0 j.files)
        (elim (Bool-cases (h.path == path)) [
          | inl same ↦ rw same (
              append_assoc (on_disk path j) (split_at n h.pending).0 (split_at n h.pending).1
              ∙ ap (λ t. on_disk path j ++ t) (split_at-append n h.pending))
          | inr other ↦ rw other (append-nil _)
        ])
]
