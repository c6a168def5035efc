-- ===== src/Agent/Audit/Logger.antt =====
-- agent/hitl_audit.go: `FileHITLAuditLogger`. A file is the lines that end in a line feed and the rest
-- behind the last of them, or `none` while there is none; the JSON of an entry has no line feed.
use deepagent.Base.{
  ℕ, Bool, true, false, Option, none, some, List, [], ◌∷◌, ◌++◌, ◌==◌, if◌then◌else◌, all, take,
}
use deepagent.Base.Text.{Str, lit}
use deepagent.Agent.Audit.{Entry, Codec, compute_hitl_audit_hash, fits}

pub record Logger : Type 0 where
  pub loaded : Bool
  pub last_hash : Str

-- Which of the calls of the operating system succeed; a write that fails may stop after some of the
-- text.
pub record Io : Type 0 where
  pub opens_to_read : Bool
  pub opens_to_append : Bool
  pub stops_after : Option ℕ

pub record Contents : Type 0 where
  pub ended : List Str
  pub rest : Str

abbrev pub File : Type 0
File = Option Contents

-- an empty file, where there is none
abbrev pub contents : File → Contents
contents none = record { ended = []; rest = [] }
contents (some f) = f

-- The tokens of `bufio.Scanner`: a last line need not end in a line feed.
abbrev pub with_rest : List Str → Str → List Str
with_rest ended [] = ended
with_rest ended (ch ∷ rest) = ended ++ (ch ∷ rest) ∷ []

abbrev pub scanned : File → Option (List Str)
scanned none = none
scanned (some f) = some (with_rest f.ended f.rest)

-- What `Write` of a text with a line feed leaves, and what one leaves that stops before its end.
abbrev pub add_line : Str → Contents → Contents
add_line text f = record { ended = f.ended ++ (f.rest ++ text) ∷ []; rest = [] }

abbrev pub add_part : ℕ → Str → Contents → Contents
add_part n text f = record f { rest = f.rest ++ take n text }

-- The logger, the file, and the error; `none` is nil.
pub record Logged : Type 0 where
  pub logger : Logger
  pub file : File
  pub error : Option Str

abbrev pub new_logger : Logger
new_logger = record { loaded = false; last_hash = [] }

-- `lastLine` after the scan
unfoldable pub last_line : List Str → Str
last_line [] = []
last_line (text ∷ []) = text
last_line (_ ∷ text ∷ rest) = last_line (text ∷ rest)

abbrev pub lines : File → List Str
lines f = with_rest (contents f).ended (contents f).rest

module _ (c : Codec) where
  -- from the last line of a file that was read
  unfoldable pub read_last : Str → Logger → Option Str × Logger
  read_last [] l = (none, l)
  read_last (ch ∷ text) l = elim (c.unmarshal (ch ∷ text)) [
    | none ↦ (some (lit "invalid json"), l)
    | some e ↦ (none, record l { last_hash = e.hash })
  ]

  unfoldable pub read_file : Io → File → Logger → Option Str × Logger
  unfolding read_last last_line
  read_file io none l = (none, l)
  read_file io (some f) l =
      if io.opens_to_read
      then (if all fits (lines (some f))
          then read_last (last_line (lines (some f))) l
          else (some (lit "bufio.Scanner: token too long"), l))
      else (some (lit "open failed"), l)

  -- `loadLastHashLocked`: it counts as loaded before the file is read
  unfoldable pub load_last_hash : Io → File → Logger → Option Str × Logger
  unfolding read_file
  load_last_hash io f l =
      if l.loaded then (none, l) else read_file io f (record l { loaded = true })

  -- `entry` with its time stamp and its hashes
  unfoldable pub seal : ℕ → Entry → Str → Entry
  unfolding compute_hitl_audit_hash
  seal now e prev =
      let stamped : Entry = record e {
        timestamp = if e.timestamp == 0 then now else e.timestamp;
        prev_hash = prev;
      } in
      record stamped { hash = compute_hitl_audit_hash c stamped }

  abbrev pub wrote : Option ℕ → Str → Str → Logger → Contents → Logged
  wrote none text hash l f = record {
    logger = record l { last_hash = hash };
    file = some (add_line text f);
    error = none;
  }
  wrote (some n) text hash l f = record {
    logger = l;
    file = some (add_part n text f);
    error = some (lit "write failed");
  }

  -- opening the file to append creates it
  unfoldable pub append_line : Io → Str → Str → Logger → File → Logged
  append_line io text hash l f =
      if io.opens_to_append
      then wrote io.stops_after text hash l (contents f)
      else record { logger = l; file = f; error = some (lit "open failed") }

  -- what follows `json.Marshal`
  unfoldable pub write_text : Io → Option Str → Str → Logger → File → Logged
  unfolding append_line
  write_text io none hash l f = record { logger = l; file = f; error = some (lit "json error") }
  write_text io (some text) hash l f = append_line io text hash l f

  unfoldable pub write_entry : Io → Entry → Logger → File → Logged
  unfolding write_text
  write_entry io e l f = write_text io (c.marshal e) e.hash l f

  unfoldable pub after_load : Io → ℕ → Entry → Option Str × Logger → File → Logged
  unfolding write_entry seal
  after_load io now e (some failure, l) f = record { logger = l; file = f; error = some failure }
  after_load io now e (none, l) f = write_entry io (seal now e l.last_hash) l f

  unfoldable pub log_hitl_event : Io → ℕ → Entry → Logger → File → Logged
  unfolding after_load load_last_hash
  log_hitl_event io now e l f = after_load io now e (load_last_hash io f l) f
