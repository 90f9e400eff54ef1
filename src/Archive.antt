-- ===== src/Archive.antt =====
-- `JsonlWriter` of src/ai_ha/archive/jsonl_writer.py. A file stands under its name and holds the text
-- that has been written to it; the day of a time (UTC) is a parameter. The open file has a buffer,
-- which goes to the file at a flush and at the close; that Python may write a part of it at any time
-- before is a step of its own. Each opening of a `.gz` file starts a gzip stream, which gets its end
-- marker at the close: of a file in `torn` an earlier process has left a stream without one, so that
-- its text cannot be read back in full. A full disk is not modelled.
pub mod View
pub mod Append
pub mod Log
pub mod Crash
use Prim.Native.String.{◌++◌}
use ai_home_assistant.Prelude.{
  ℕ, String, Option, none, some, Bool, true, false, List, [], ◌==◌, string_eq, if◌then◌else◌,
}
use ai_home_assistant.Prelude.Dict.{Dict, alter}
use ai_home_assistant.Prelude.Texts.{split_at}

-- `begun`: a part of the stream that was started at the opening may have reached the file.
pub record Handle : Type 0 where
  pub path : String
  pub pending : String
  pub begun : Bool

pub record JsonlWriter : Type 0 where
  pub compress : Bool
  pub current_day : Option String
  pub handle : Option Handle
  pub files : Dict String String
  pub torn : List String

abbrev pub new_writer : Bool → JsonlWriter
new_writer compress = record {
  compress = compress;
  current_day = none;
  handle = none;
  files = [];
  torn = [];
}

unfoldable pub path_for_day : Bool → String → String
path_for_day true day = day ++ ".jsonl.gz"
path_for_day false day = day ++ ".jsonl"

-- The text goes to the end of a file, which is made if it is not there.
abbrev pub added : String → Option String → String
added text none = text
added text (some old) = old ++ text

-- What the buffer of an open file holds goes to the file.
abbrev pub written_out : Option Handle → Dict String String → Dict String String
written_out none files = files
written_out (some h) files = alter h.path (added h.pending) files

abbrev pub is_open : String → Option String → Option Handle → Bool
is_open day (some d) (some h) = d == day
is_open day _ _ = false

abbrev pub opened : String → JsonlWriter → JsonlWriter
opened day j = record j {
  current_day = some day;
  handle = some (record { path = path_for_day j.compress day; pending = ""; begun = false });
  files = alter (path_for_day j.compress day) (added "") (written_out j.handle j.files);
}

-- `_ensure_day`: the open file of another day is closed first.
abbrev pub ensure_day : String → JsonlWriter → JsonlWriter
ensure_day day j = if is_open day j.current_day j.handle then j else opened day j

abbrev pub buffered : String → Option Handle → Option Handle
buffered text none = none
buffered text (some h) = some (record h { pending = h.pending ++ text })

unfoldable pub append : String → String → JsonlWriter → JsonlWriter
append day text j =
    let j' = ensure_day day j in record j' { handle = buffered (text ++ "\n") j'.handle }

abbrev pub emptied : Option Handle → Option Handle
emptied none = none
emptied (some h) = some (record h { pending = ""; begun = true })

unfoldable pub flush : JsonlWriter → JsonlWriter
flush j = record j { handle = emptied j.handle; files = written_out j.handle j.files }

abbrev pub closed : Option Handle → JsonlWriter → JsonlWriter
closed none j = j
closed (some h) j = record j {
  current_day = none;
  handle = none;
  files = written_out (some h) j.files;
}

unfoldable pub close : JsonlWriter → JsonlWriter
close j = closed j.handle j

abbrev pub spilled : ℕ → Option Handle → JsonlWriter → JsonlWriter
spilled n none j = j
spilled n (some h) j =
    let (front, back) = split_at n h.pending in
    record j {
      handle = some (record h { pending = back; begun = true });
      files = alter h.path (added front) j.files;
    }

-- Python writes to the file by itself, the first `n` characters of the buffer.
unfoldable pub spill : ℕ → JsonlWriter → JsonlWriter
spill n j = spilled n j.handle j
