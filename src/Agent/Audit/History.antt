-- ===== src/Agent/Audit/History.antt =====
-- agent/hitl_audit.go: what calls of the logger leave in the file, one and many.
use deepagent.Base.{
  ℕ, ◌≡◌, ◌≢◌, refl, ◌⊎◌, inl, inr, Bool, true, false, Option, none, some, List, [], ◌∷◌, ◌++◌, All,
  if◌then◌else◌, ◌==◌, take, ap, sym, append-nil,
}
use deepagent.Base.Text.{Str}
use deepagent.Agent.Audit.{Entry, Codec, payload, compute_hitl_audit_hash}
use deepagent.Agent.Audit.Logger.{
  Logger, Io, Contents, File, contents, scanned, add_line, Logged, new_logger, lines,
  load_last_hash, seal, write_text, write_entry, append_line, after_load, log_hitl_event,
}
use deepagent.Agent.Audit.Verify.{pass, Cursor, top, check_lines, verify}
use deepagent.Agent.Audit.Lines.{Solid}
use deepagent.Agent.Audit.Chain.{IsSound, TearsNone, Loggable, log_hitl_event-IsSound}

module _ (c : Codec) where
  -- The hash that the next entry is to name: the one that the logger knows, after loading.
  abbrev pub known_hash : Io → Logger → File → Str
  known_hash io l f = (load_last_hash c io f l).1.last_hash

  -- The entry with a time stamp, the hash of the entry before, and the hash of all this.
  abbrev pub IsSealed : ℕ → Entry → Str → Entry → Type 0
  IsSealed now e prev sealed =
      (sealed.body ≡ e.body)
      × (sealed.timestamp ≡ (if e.timestamp == 0 then now else e.timestamp))
      × (sealed.prev_hash ≡ prev)
      × (sealed.hash ≡ compute_hitl_audit_hash c sealed)

  -- What a call may leave behind the last line: nothing, or the start of the sealed entry's JSON.
  abbrev pub IsPart : ℕ → Entry → Str → Str → Type 0
  IsPart now e prev more =
      (more ≡ [])
      ⊎ ((sealed : Entry) × (text : Str) × (n : ℕ) × IsSealed now e prev sealed
          × (c.marshal sealed ≡ some text)
          × (more ≡ take n text))

  -- Either no error, and the sealed entry after the known hash is the new end of the file, and its
  -- hash the known one; or an error, no line has been ended, behind the last line stands at most the
  -- start of the entry, and the known hash is the old one.
  abbrev pub IsRecorded : ℕ → Entry → Str → File → Logged → Type 0
  IsRecorded now e prev f done =
      ((done.error ≡ none)
        × (sealed : Entry) × (text : Str) × IsSealed now e prev sealed
        × (c.marshal sealed ≡ some text)
        × (done.file ≡ some (add_line text (contents f)))
        × (done.logger.last_hash ≡ sealed.hash))
      ⊎ ((done.error ≢ none)
          × (more : Str) × (contents done.file
              ≡ record (contents f) { rest = (contents f).rest ++ more })
          × IsPart now e prev more
          × (done.logger.last_hash ≡ prev))

  seal-IsSealed : (now : ℕ) (e : Entry) (prev : Str) → IsSealed now e prev (seal c now e prev)
  unfolding seal compute_hitl_audit_hash payload
  seal-IsSealed now e prev = (refl, refl, refl, refl)

  unchanged : (f : Contents) → f ≡ record f { rest = f.rest ++ [] }
  unchanged f = ap (λ r. record f { rest = r }) (sym (append-nil f.rest))

  write_text-IsRecorded :
      (now : ℕ) (e : Entry) (l : Logger) (f : File) (opens_to_read opens : Bool) (stops : Option ℕ)
      (o : Option Str)
      → c.marshal (seal c now e l.last_hash) ≡ o
      → IsRecorded now e l.last_hash f (
          write_text c
            (record { opens_to_read = opens_to_read; opens_to_append = opens; stops_after = stops })
            o
            (seal c now e l.last_hash).hash
            l
            f)
  unfolding write_text append_line
  write_text-IsRecorded now e l f reads opens stops none written =
      inr ((λ h. cc), [], unchanged (contents f), inl refl, refl)
  write_text-IsRecorded now e l f reads false stops (some text) written =
      inr ((λ h. cc), [], unchanged (contents f), inl refl, refl)
  write_text-IsRecorded now e l f reads true (some n) (some text) written = inr (
    (λ h. cc),
    take n text,
    refl,
    inr (_, text, n, seal-IsSealed now e l.last_hash, written, refl),
    refl,
  )
  write_text-IsRecorded now e l f reads true none (some text) written =
      inl (refl, _, text, seal-IsSealed now e l.last_hash, written, refl, refl)

  after_load-IsRecorded :
      (io : Io) (now : ℕ) (e : Entry) (f : File) (r : Option Str × Logger)
      → IsRecorded now e r.1.last_hash f (after_load c io now e r f)
  unfolding after_load write_entry
  after_load-IsRecorded io now e f (some failure, l) =
      inr ((λ h. cc), [], unchanged (contents f), inl refl, refl)
  after_load-IsRecorded io now e f (none, l) =
      write_text-IsRecorded now e l f io.opens_to_read io.opens_to_append io.stops_after _ refl

  -- Logging an event, whichever system calls fail: without an error, the line of the entry, sealed
  -- after the hash that the logger knew once it had loaded, stands behind the contents of the file,
  -- and the logger knows its hash; with an error, no line was ended and what the logger knows is the
  -- same, but a write that stops can leave the start of the entry behind the last line.
  pub log_hitl_event-IsRecorded :
      (io : Io) (now : ℕ) (e : Entry) (l : Logger) (f : File)
      → IsRecorded now e (known_hash io l f) f (log_hitl_event c io now e l f)
  unfolding log_hitl_event
  log_hitl_event-IsRecorded io now e l f = after_load-IsRecorded io now e f _

  -- One call of the logger: which system calls succeed, the time, and the entry.
  abbrev pub LogCall : Type 0
  LogCall = Io × ℕ × Entry

  unfoldable pub log_all : List LogCall → Logger → File → Logger × File
  unfolding log_hitl_event
  log_all [] l f = (l, f)
  log_all ((io, now, e) ∷ rest) l f =
      let done = log_hitl_event c io now e l f in log_all rest done.logger done.file

  -- The file can be read, the entry is written so that it can be read, and a write that fails writes
  -- nothing.
  abbrev pub CanLog : LogCall → Type 0
  CanLog (io, now, e) = (io.opens_to_read ≡ true) × TearsNone c io × Loggable c now e

  log_all-IsSound :
      (calls : List LogCall) (l : Logger) (f : File)
      → All CanLog calls
      → IsSound c l f
      → let after = log_all calls l f in IsSound c after.0 after.1
  unfolding log_all
  log_all-IsSound [] l f can h = h
  log_all-IsSound ((io, now, e) ∷ rest) l f ((readable, tears, short), can) h =
      let done = log_hitl_event c io now e l f in
      log_all-IsSound rest done.logger done.file can
        (log_hitl_event-IsSound c io now e l f short tears (λ _. readable) h)

  -- The file is not there, or it passes the verification.
  abbrev pub Verifies : File → Type 0
  Verifies f = (f ≡ none) ⊎ ((k : Cursor) × (verify c false (scanned f) ≡ pass k))

  unread :
      (f : File) (k : Cursor)
      → check_lines c false top (lines f) ≡ pass k
      → Solid c (lines f)
      → (contents f).rest ≡ []
      → IsSound c new_logger f
  unread f k passes solid whole = record {
    cursor = k;
    passes = passes;
    solid = solid;
    whole = whole;
    in_step = λ h. cc;
    fresh = λ _. refl;
  }

  pub new_logger-IsSound :
      (f : File) → Solid c (lines f) → (contents f).rest ≡ [] → Verifies f → IsSound c new_logger f
  unfolding verify check_lines
  new_logger-IsSound none solid whole h = unread none top refl solid whole
  new_logger-IsSound (some g) solid whole (inl e) = cc
  new_logger-IsSound (some g) solid whole (inr (k, passes)) = unread (some g) k passes solid whole

  IsSound-Verifies : (l : Logger) (f : File) → IsSound c l f → Verifies f
  unfolding verify
  IsSound-Verifies l none h = inl refl
  IsSound-Verifies l (some g) h = inr (h.cursor, h.passes)

  -- A logger that starts on no file, or on one without blank lines that ends in a line feed and
  -- verifies, and logs any events, each while the file can be read and written so that it can be read
  -- back, leaves a file that verifies, whatever fails meanwhile, as long as each write that fails
  -- writes nothing.
  pub log_all-Verifies :
      (calls : List LogCall) (f : File)
      → All CanLog calls
      → Solid c (lines f)
      → (contents f).rest ≡ []
      → Verifies f
      → Verifies (log_all calls new_logger f).1
  log_all-Verifies calls f can solid whole h =
      IsSound-Verifies _ _
        (log_all-IsSound calls new_logger f can (new_logger-IsSound f solid whole h))
