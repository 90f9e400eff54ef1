-- ===== src/Archive/Crash.antt =====
-- What the end of the process without a close leaves of the archive of
-- src/ai_ha/archive/jsonl_writer.py.
use Prim.Native.String.{◌++◌}
use text.Mathlib.TextLemmas.{append-nil}
use ai_home_assistant.Prelude.{
  String, Option, none, some, Bool, true, false, List, [], ◌∷◌, ◌≡◌, refl, ◌∙◌, sym, ap, inl, inr,
  ◌==◌, ◌||◌, string_eq, if◌then◌else◌, Bool-cases, eq_of_beq, Option-cases, map_option, ◌⊎◌,
}
use ai_home_assistant.Prelude.Lists.{any}
use ai_home_assistant.Archive.{
  Handle, JsonlWriter, path_for_day, is_open, emptied, append, flush, close, spill,
}
use ai_home_assistant.Archive.View.{on_disk, waiting, contents}
use ai_home_assistant.Archive.Append.{Paired, IsPaired}
use ai_home_assistant.Archive.Log.{
  Op, write, flushing, closing, spilling, perform, perform_all, lines_at, IsPaired-perform_all,
  compress-perform, contents-perform_all,
}

abbrev with_cut : Bool → Option Handle → List String → List String
with_cut true (some h) torn = if h.begun then h.path ∷ torn else torn
with_cut true none torn = torn
with_cut false h torn = torn

-- What a process that ends at once leaves to the next one, whose writer has no file open: the buffer
-- is lost, and a gzip stream that has begun stays without its end.
unfoldable pub crash : JsonlWriter → JsonlWriter
crash j = record j { current_day = none; handle = none; torn = with_cut j.compress j.handle j.torn }

abbrev pub is_torn : String → JsonlWriter → Bool
is_torn path j = any (λ p. p == path) j.torn

-- The day whose file is open after some operations, and whether something may have reached the file
-- since it was opened.
abbrev stage : Option String → Option Handle → Option (String × Bool)
stage none h = none
stage (some d) none = none
stage (some d) (some h) = some (d, h.begun)

abbrev pub track : Op → Option (String × Bool) → Option (String × Bool)
track (write day text) none = some (day, false)
track (write day text) (some (d, b)) = if d == day then some (d, b) else some (day, false)
track closing o = none
track _ none = none
track _ (some (d, b)) = some (d, true)

abbrev pub track_all : List Op → Option (String × Bool) → Option (String × Bool)
track_all [] o = o
track_all (p ∷ ps) o = track_all ps (track p o)

-- Whether that file is a `.gz` file at the path that has begun a stream.
abbrev pub cuts : String → Bool → Option (String × Bool) → Bool
cuts path false o = false
cuts path true (some (d, true)) = path_for_day true d == path
cuts path true _ = false

any-with_cut :
    (path : String) (c : Bool) (d : Option String) (h : Option Handle) (torn : List String)
    → Paired c d h
    → any (λ p. p == path) (with_cut c h torn)
      ≡ cuts path c (stage d h) || any (λ p. p == path) torn
any-with_cut path false d h torn p = refl
any-with_cut path true none none torn p = refl
any-with_cut path true none (some h) torn p = absurd (cc)
any-with_cut path true (some d) none torn p = absurd (cc)
any-with_cut path true (some d) (some h) torn p = elim (Bool-cases h.begun) [
  | inl some_of_it ↦
      rw (some_of_it, p)
        (elim (Bool-cases (path_for_day true d == path)) [
          | inl here ↦ rw here refl
          | inr other ↦ rw other refl
        ])
  | inr nothing ↦ rw nothing refl
]

stage-emptied :
    (d : Option String) (h : Option Handle) → stage d (emptied h) ≡ track flushing (stage d h)
stage-emptied none h = refl
stage-emptied (some d) none = refl
stage-emptied (some d) (some h) = refl

stage-perform :
    (o : Op) (j : JsonlWriter)
    → stage (perform o j).current_day (perform o j).handle ≡ track o (stage j.current_day j.handle)
unfolding perform flush append close spill
stage-perform (write day text) j = elim (Option-cases j.current_day) [
  | inl e ↦ rw e refl
  | inr (d, e) ↦ elim (Option-cases j.handle) [
    | inl k ↦ rw (e, k) refl
    | inr (h, k) ↦
        rw (e, k)
          (elim (Bool-cases (d == day)) [ inl same ↦ rw same refl | inr other ↦ rw other refl ])
  ]
]
stage-perform flushing j = stage-emptied j.current_day j.handle
stage-perform closing j = elim (Option-cases j.handle) [
  | inl k ↦ rw k (elim (Option-cases j.current_day) [ inl e ↦ rw e refl | inr (d, e) ↦ rw e refl ])
  | inr (h, k) ↦ rw k refl
]
stage-perform (spilling n) j = elim (Option-cases j.current_day) [
  | inl e ↦ elim (Option-cases j.handle) [ inl k ↦ rw (k, e) refl | inr (h, k) ↦ rw (k, e) refl ]
  | inr (d, e) ↦ elim (Option-cases j.handle) [
    | inl k ↦ rw (k, e) refl
    | inr (h, k) ↦ rw (k, e) refl
  ]
]

torn-close : (j : JsonlWriter) → (close j).torn ≡ j.torn
unfolding close
torn-close j = elim (Option-cases j.handle) [ inl e ↦ rw e refl | inr (h, e) ↦ rw e refl ]

torn-perform : (o : Op) (j : JsonlWriter) → (perform o j).torn ≡ j.torn
unfolding perform flush append close spill
torn-perform (write day text) j = elim (Bool-cases (is_open day j.current_day j.handle)) [
  | inl t ↦ rw t refl
  | inr t ↦ rw t refl
]
torn-perform flushing j = refl
torn-perform closing j = elim (Option-cases j.handle) [ inl e ↦ rw e refl | inr (h, e) ↦ rw e refl ]
torn-perform (spilling n) j = elim (Option-cases j.handle) [
  | inl e ↦ rw e refl
  | inr (h, e) ↦ rw e refl
]

stage-perform_all :
    (os : List Op) (j : JsonlWriter)
    → let k = perform_all os j in
      stage k.current_day k.handle ≡ track_all os (stage j.current_day j.handle)
unfolding perform_all
stage-perform_all [] j = refl
stage-perform_all (o ∷ os) j =
    stage-perform_all os (perform o j) ∙ ap (track_all os) (stage-perform o j)

torn-perform_all : (os : List Op) (j : JsonlWriter) → (perform_all os j).torn ≡ j.torn
unfolding perform_all
torn-perform_all [] j = refl
torn-perform_all (o ∷ os) j = torn-perform_all os (perform o j) ∙ torn-perform o j

compress-perform_all : (os : List Op) (j : JsonlWriter) → (perform_all os j).compress ≡ j.compress
unfolding perform_all
compress-perform_all [] j = refl
compress-perform_all (o ∷ os) j = compress-perform_all os (perform o j) ∙ compress-perform o j

waiting-latest :
    (path : String) (c : Bool) (d : Option String) (h : Option Handle)
    → Paired c d h
    → (waiting path h ≡ "") ⊎ (map_option (path_for_day c) d ≡ some path)
waiting-latest path c d none p = inl refl
waiting-latest path c none (some h) p = cc
waiting-latest path c (some day) (some h) p = elim (Bool-cases (h.path == path)) [
  | inl same ↦ inr (ap some (sym p ∙ eq_of_beq h.path path same))
  | inr other ↦ inl (rw other refl)
]

-- What a crash after some operations leaves of one file, of which `text` was to be its contents.
pub record Leaves (path text : String) (os : List Op) (j : JsonlWriter) : Type 0 where
  pub lost : String
  pub rest : on_disk path (crash (perform_all os j)) ++ lost ≡ text
  pub latest :
      (lost ≡ "")
      ⊎ (map_option (path_for_day j.compress) (perform_all os j).current_day ≡ some path)
  pub torn :
      is_torn path (crash (perform_all os j))
      ≡ cuts path j.compress (track_all os none) || is_torn path j
  pub later :
      (ps : List Op)
      → is_torn path (close (perform_all ps (crash (perform_all os j))))
        ≡ is_torn path (crash (perform_all os j))

-- The end of the process after any operations of a writer that had no file open, without a close.
-- What the file on disk lacks of its lines is the end of the text, and only the file of the day of
-- the last line can lack anything. But that file also keeps a gzip stream without an end exactly when
-- the archive is compressed and a flush, or a write of Python's own, came after the file was last
-- opened; no other file does that did not before. What a later process of the same setting appends
-- does not mend such a file, nor does its close.
pub perform_all-crash :
    (path : String) (os : List Op) (j : JsonlWriter)
    → j.current_day ≡ none
    → j.handle ≡ none
    → Leaves path (on_disk path j ++ lines_at j.compress path os) os j
unfolding crash
perform_all-crash path os j e k =
    let paired : IsPaired j = rw (e, k) tt in
    let end = perform_all os j in
    let p = IsPaired-perform_all os j paired in
    let same = compress-perform_all os j in
    let held : contents path j ≡ on_disk path j = rw k (append-nil (on_disk path j)) in
    record {
      lost = waiting path end.handle;
      rest =
          contents-perform_all path os j paired ∙ ap (λ t. t ++ lines_at j.compress path os) held;
      latest = elim (waiting-latest path end.compress end.current_day end.handle p) [
        | inl nothing ↦ inl nothing
        | inr here ↦ inr (ap (λ c. map_option (path_for_day c) end.current_day) (sym same) ∙ here)
      ];
      torn =
          any-with_cut path end.compress end.current_day end.handle end.torn p
          ∙ ap
              (λ c. cuts path c (stage end.current_day end.handle) || any (λ p. p == path) end.torn)
              same
          ∙ ap (λ s. cuts path j.compress s || any (λ p. p == path) end.torn)
              (stage-perform_all os j ∙ ap (λ d. track_all os (stage d j.handle)) e)
          ∙ ap (λ t. cuts path j.compress (track_all os none) || any (λ p. p == path) t)
              (torn-perform_all os j);
      later = λ ps.
          ap (λ t. any (λ p. p == path) t)
            (torn-close (perform_all ps (crash end)) ∙ torn-perform_all ps (crash end));
    }
