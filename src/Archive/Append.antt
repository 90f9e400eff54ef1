-- ===== src/Archive/Append.antt =====
-- The line that `append` of src/ai_ha/archive/jsonl_writer.py adds, and the file that it opens.
use Prim.Native.String.{◌++◌}
use text.Mathlib.TextLemmas.{append-nil, append_assoc}
use ai_home_assistant.Prelude.{
  String, Option, none, some, Bool, true, false, ◌≡◌, refl, ◌∙◌, sym, ap, inl, inr, ◌==◌, string_eq,
  if◌then◌else◌, Bool-cases, eq_of_beq,
}
use ai_home_assistant.Archive.{
  Handle, JsonlWriter, path_for_day, is_open, ensure_day, buffered, append,
}
use ai_home_assistant.Archive.View.{on_disk, waiting, contents, contents-opened}

-- The day and the file are set together, and the file is the day's.
abbrev pub Paired : Bool → Option String → Option Handle → Type 0
Paired c none none = Unit
Paired c (some day) (some h) = h.path ≡ path_for_day c day
Paired c _ _ = true ≡ false

abbrev pub IsPaired : JsonlWriter → Type 0
IsPaired j = Paired j.compress j.current_day j.handle

-- The lines of one file that the operations write.
abbrev pub line_at : Bool → String → String → String → String
line_at c path day text = if path_for_day c day == path then text ++ "\n" else ""

-- The writer with the file of a day open.
record OpenFor (day : String) (j : JsonlWriter) : Type 0 where
  file : Handle
  current : j.current_day ≡ some day
  handle : j.handle ≡ some file
  named : file.path ≡ path_for_day j.compress day

OpenFor-current :
    (day : String) (j : JsonlWriter) (d : Option String) (h : Option Handle)
    → Paired j.compress d h
    → d ≡ j.current_day
    → h ≡ j.handle
    → is_open day d h ≡ true
    → OpenFor day j
OpenFor-current day j none h p e k t = cc
OpenFor-current day j (some d) none p e k t = cc
OpenFor-current day j (some d) (some h) p e k t =
    let same = eq_of_beq d day t in
    record {
      file = h;
      current = sym e ∙ ap some same;
      handle = sym k;
      named = p ∙ ap (λ x. path_for_day j.compress x) same;
    }

OpenFor-ensure_day : (day : String) (j : JsonlWriter) → IsPaired j → OpenFor day (ensure_day day j)
OpenFor-ensure_day day j p = elim (Bool-cases (is_open day j.current_day j.handle)) [
  | inl t ↦ rw t (OpenFor-current day j j.current_day j.handle p refl refl t)
  | inr t ↦ rw t (record {
    file = record { path = path_for_day j.compress day; pending = ""; begun = false };
    current = refl;
    handle = refl;
    named = refl;
  })
]

pub compress-ensure_day :
    (day : String) (j : JsonlWriter) → (ensure_day day j).compress ≡ j.compress
compress-ensure_day day j = elim (Bool-cases (is_open day j.current_day j.handle)) [
  | inl t ↦ rw t refl
  | inr t ↦ rw t refl
]

contents-ensure_day :
    (path day : String) (j : JsonlWriter) → contents path (ensure_day day j) ≡ contents path j
contents-ensure_day path day j = elim (Bool-cases (is_open day j.current_day j.handle)) [
  | inl t ↦ rw t refl
  | inr t ↦ rw t (contents-opened path day j)
]

waiting-buffered :
    (path text : String) (h : Handle)
    → waiting path (buffered text (some h))
      ≡ waiting path (some h) ++ (if h.path == path then text else "")
waiting-buffered path text h = elim (Bool-cases (h.path == path)) [
  | inl t ↦ rw t refl
  | inr t ↦ rw t (sym (append-nil ""))
]

contents-write :
    (path day text : String) (k : JsonlWriter)
    → OpenFor day k
    → contents path (record k { handle = buffered text k.handle })
      ≡ contents path k ++ (if path_for_day k.compress day == path then text else "")
contents-write path day text k o =
    rw (o.handle, waiting-buffered path text o.file, o.named)
      (sym (append_assoc (on_disk path k) _ _))

-- The line goes to the end of the file of its day.
pub contents-append :
    (path day text : String) (j : JsonlWriter)
    → IsPaired j
    → contents path (append day text j) ≡ contents path j ++ line_at j.compress path day text
unfolding append
contents-append path day text j p =
    contents-write path day (text ++ "\n") (ensure_day day j) (OpenFor-ensure_day day j p)
    ∙ rw (contents-ensure_day path day j, compress-ensure_day day j) refl

-- The open file is always that of the current day.
pub IsPaired-append :
    (day text : String) (j : JsonlWriter) → IsPaired j → IsPaired (append day text j)
unfolding append
IsPaired-append day text j p =
    let o = OpenFor-ensure_day day j p in rw (o.handle, o.current) o.named
