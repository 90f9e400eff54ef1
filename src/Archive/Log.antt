-- ===== src/Archive/Log.antt =====
-- The archive of src/ai_ha/archive/jsonl_writer.py as one growing text for each file, whatever the
-- buffer of the open file holds back.
use Prim.Native.String.{◌++◌}
use text.Mathlib.TextLemmas.{append-nil, append_assoc}
use ai_home_assistant.Prelude.{
  ℕ, String, Option, none, some, Bool, true, List, [], ◌∷◌, ◌≡◌, refl, ◌∙◌, sym, ap, inl, inr,
  string_eq, Option-cases,
}
use ai_home_assistant.Prelude.Texts.{split_at}
use ai_home_assistant.Archive.{Handle, JsonlWriter, append, flush, close, spill}
use ai_home_assistant.Archive.View.{
  on_disk, contents, text_of-written_out, contents-flush, contents-close, contents-spill,
}
use ai_home_assistant.Archive.Append.{
  Paired, IsPaired, line_at, contents-append, IsPaired-append, compress-ensure_day,
}

pub data Op : Type 0 where
  write : String → String → Op
  flushing : Op
  closing : Op
  spilling : ℕ → Op

unfoldable pub perform : Op → JsonlWriter → JsonlWriter
perform (write day text) j = append day text j
perform flushing j = flush j
perform closing j = close j
perform (spilling n) j = spill n j

unfoldable pub perform_all : List Op → JsonlWriter → JsonlWriter
perform_all [] j = j
perform_all (o ∷ os) j = perform_all os (perform o j)

-- The lines of one file that the operations write.
abbrev pub lines_at : Bool → String → List Op → String
lines_at c path [] = ""
lines_at c path (write day text ∷ os) = line_at c path day text ++ lines_at c path os
lines_at c path (_ ∷ os) = lines_at c path os

Paired-renamed :
    (c : Bool) (d : Option String) (h k : Handle)
    → k.path ≡ h.path
    → Paired c d (some h)
    → Paired c d (some k)
Paired-renamed c none h k e p = p
Paired-renamed c (some day) h k e p = e ∙ p

pub IsPaired-perform : (o : Op) (j : JsonlWriter) → IsPaired j → IsPaired (perform o j)
unfolding perform flush close spill
IsPaired-perform (write day text) j p = IsPaired-append day text j p
IsPaired-perform flushing j p = elim (Option-cases j.handle) [
  | inl e ↦ rw e (rw (← e) p)
  | inr (h, e) ↦ rw e (
      Paired-renamed j.compress j.current_day h (record h { pending = ""; begun = true }) refl
        (rw (← e) p))
]
IsPaired-perform closing j p = elim (Option-cases j.handle) [
  | inl e ↦ rw e (rw (← e) p)
  | inr (h, e) ↦ rw e tt
]
IsPaired-perform (spilling n) j p = elim (Option-cases j.handle) [
  | inl e ↦ rw e (rw (← e) p)
  | inr (h, e) ↦ rw e (
      Paired-renamed j.compress j.current_day h
        (record h { pending = (split_at n h.pending).1; begun = true }) refl (rw (← e) p))
]

pub compress-perform : (o : Op) (j : JsonlWriter) → (perform o j).compress ≡ j.compress
unfolding perform flush append close spill
compress-perform (write day text) j = compress-ensure_day day j
compress-perform flushing j = refl
compress-perform closing j = elim (Option-cases j.handle) [
  | inl e ↦ rw e refl
  | inr (h, e) ↦ rw e refl
]
compress-perform (spilling n) j = elim (Option-cases j.handle) [
  | inl e ↦ rw e refl
  | inr (h, e) ↦ rw e refl
]

contents-perform :
    (path : String) (o : Op) (os : List Op) (j : JsonlWriter)
    → IsPaired j
    → contents path (perform o j) ++ lines_at j.compress path os
      ≡ contents path j ++ lines_at j.compress path (o ∷ os)
unfolding perform
contents-perform path (write day text) os j p =
    ap (λ t. t ++ lines_at j.compress path os) (contents-append path day text j p)
    ∙ append_assoc (contents path j) _ _
contents-perform path flushing os j p =
    ap (λ t. t ++ lines_at j.compress path os) (contents-flush path j)
contents-perform path closing os j p =
    ap (λ t. t ++ lines_at j.compress path os) (contents-close path j)
contents-perform path (spilling n) os j p =
    ap (λ t. t ++ lines_at j.compress path os) (contents-spill path n j)

pub IsPaired-perform_all :
    (os : List Op) (j : JsonlWriter) → IsPaired j → IsPaired (perform_all os j)
unfolding perform_all
IsPaired-perform_all [] j p = p
IsPaired-perform_all (o ∷ os) j p = IsPaired-perform_all os (perform o j) (IsPaired-perform o j p)

pub contents-perform_all :
    (path : String) (os : List Op) (j : JsonlWriter)
    → IsPaired j
    → contents path (perform_all os j) ≡ contents path j ++ lines_at j.compress path os
unfolding perform_all
contents-perform_all path [] j p = sym (append-nil (contents path j))
contents-perform_all path (o ∷ os) j p =
    contents-perform_all path os (perform o j) (IsPaired-perform o j p)
    ∙ rw (compress-perform o j) (contents-perform path o os j p)

on_disk-close :
    (path : String) (j : JsonlWriter) → IsPaired j → on_disk path (close j) ≡ contents path j
unfolding close
on_disk-close path j p = elim (Option-cases j.handle) [
  | inl e ↦ rw e (sym (append-nil (on_disk path j)))
  | inr (h, e) ↦ rw e (text_of-written_out path (some h) j.files)
]

-- Lines that are written, and flushes, closings and spills of the buffer, in any order: when the
-- archive is then closed, each file holds what it held or was to hold before, and after it the
-- lines of its day, whole and in the order in which they were written.
pub perform_all-close :
    (path : String) (os : List Op) (j : JsonlWriter)
    → IsPaired j
    → on_disk path (close (perform_all os j)) ≡ contents path j ++ lines_at j.compress path os
perform_all-close path os j p =
    on_disk-close path (perform_all os j) (IsPaired-perform_all os j p)
    ∙ contents-perform_all path os j p
