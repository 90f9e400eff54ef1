-- ===== src/Tests/Archive.antt =====
-- The archive on small inputs, as a running service writes it and as a crash leaves it.
use Prim.Native.String.{◌++◌}
use ai_home_assistant.Prelude.{List, true, false, [], ◌∷◌, ◌≡◌, refl}
use ai_home_assistant.Prelude.Dict.{get, alter}
use ai_home_assistant.Archive.{JsonlWriter, path_for_day, new_writer, append, spill, close}
use ai_home_assistant.Archive.View.{on_disk, contents}
use ai_home_assistant.Archive.Log.{
  Op, write, spilling, perform, perform_all, lines_at, perform_all-close,
}
use ai_home_assistant.Archive.Crash.{Leaves, crash, is_torn, perform_all-crash}

abbrev found : JsonlWriter
found = record (new_writer true) { files = ("2026-01-01.jsonl.gz", "old\n") ∷ [] }

-- Two lines of one day and one of the next, with a part of the first line written early.
abbrev night : List Op
night = write "2026-01-01" "a" ∷ spilling 1 ∷ write "2026-01-01" "b" ∷ write "2026-01-02" "c" ∷ []

abbrev evening : List Op
evening = write "2026-01-01" "a" ∷ spilling 1 ∷ []

half_a_line : on_disk "2026-01-01.jsonl.gz" (perform_all evening found) ≡ "old\na"
unfolding perform_all append path_for_day get perform spill alter
half_a_line = refl

rolls_over : on_disk "2026-01-01.jsonl.gz" (perform_all night found) ≡ "old\na\nb\n"
unfolding perform_all append path_for_day get perform spill alter
rolls_over = refl

perform_all-close_example :
    on_disk "2026-01-01.jsonl.gz" (close (perform_all night found))
    ≡ contents "2026-01-01.jsonl.gz" found ++ lines_at true "2026-01-01.jsonl.gz" night
perform_all-close_example = perform_all-close "2026-01-01.jsonl.gz" night found tt

perform_all-crash_example :
    Leaves "2026-01-01.jsonl.gz"
      (on_disk "2026-01-01.jsonl.gz" found ++ lines_at true "2026-01-01.jsonl.gz" evening)
      evening
      found
perform_all-crash_example = perform_all-crash "2026-01-01.jsonl.gz" evening found refl refl

-- A part of the first line was written, and the stream has no end.
cut_short : is_torn "2026-01-01.jsonl.gz" (crash (perform_all evening found)) ≡ true
unfolding perform_all append path_for_day perform spill crash
cut_short = refl

-- Nothing of the next day's line was written, and the day before is closed.
kept_whole : is_torn "2026-01-01.jsonl.gz" (crash (perform_all night found)) ≡ false
unfolding perform_all append path_for_day perform spill crash
kept_whole = refl
