-- ===== src/Agent/Audit/Written.antt =====
-- agent/hitl_audit.go: the contents of a file to which the logger wrote.
use mathlib.Core.Path.{subst}
use deepagent.Base.{
  ℕ, ◌≡◌, ◌≢◌, refl, inl, sym, ap, ◌∙◌, true, Option, none, some, List, [], ◌∷◌, ◌++◌, All, map,
}
use deepagent.Base.Text.{Str}
use deepagent.Agent.Types.{AuditEntry}
use deepagent.Agent.Audit.{Entry, Codec}
use deepagent.Agent.Audit.Logger.{
  Logger, Io, File, contents, Logged, lines, seal, write_text, write_entry, append_line, after_load,
  log_hitl_event,
}
use deepagent.Agent.Audit.Verify.{top}
use deepagent.Agent.Audit.Lines.{IsPrevious, check_lines-IsPrevious}
use deepagent.Agent.Audit.Chain.{
  IsSound, IsLoaded, TearsNone, lines-add_line, Loggable, load_last_hash-IsLoaded,
  log_hitl_event-IsSound,
}
use deepagent.Agent.Audit.Forget.{no_failure}
use deepagent.Agent.Audit.History.{LogCall, CanLog, log_all}
use deepagent.Agent.Audit.Tamper.{push_entry, entries_onto}

module _ (c : Codec) where
  -- No system call fails, and the entry has a JSON that is read back.
  abbrev pub CanWrite : LogCall c → Type 0
  CanWrite (io, now, e) =
      (io ≡ no_failure)
      × ((prev : Str)
          → IsPrevious c prev
          → (text : Str) × (c.marshal (seal c now e prev) ≡ some text))
      × Loggable c now e

  tears-none : (io : Io) → io ≡ no_failure → TearsNone c io
  tears-none io works n stops = let whole = ap (λ io. io.stops_after) works in cc (whole, stops)

  pub CanWrite-CanLog : (calls : List (LogCall c)) → All CanWrite calls → All (CanLog c) calls
  CanWrite-CanLog [] can = tt
  CanWrite-CanLog ((io, now, e) ∷ calls) ((works, _, loggable), can) = (
    (ap (λ io. io.opens_to_read) works, tears-none io works, loggable),
    CanWrite-CanLog calls can,
  )

  -- What was logged, newest first, before `acc`.
  abbrev pub bodies_onto : List AuditEntry → List (LogCall c) → List AuditEntry
  bodies_onto acc [] = acc
  bodies_onto acc ((_, _, e) ∷ calls) = bodies_onto (e.body ∷ acc) calls

  pub bodies_onto-append :
      (acc acc' : List AuditEntry) (calls : List (LogCall c))
      → bodies_onto (acc ++ acc') calls ≡ bodies_onto acc calls ++ acc'
  bodies_onto-append acc acc' [] = refl
  bodies_onto-append acc acc' ((_, _, e) ∷ calls) = bodies_onto-append (e.body ∷ acc) acc' calls

  -- What a file says, newest first.
  abbrev pub bodies_in : File → List AuditEntry
  bodies_in f = map (λ e. e.body) (entries_onto c [] (lines f))

  entries_onto-append :
      (acc : List Entry) (xs ys : List Str)
      → entries_onto c acc (xs ++ ys) ≡ entries_onto c (entries_onto c acc xs) ys
  unfolding entries_onto
  entries_onto-append acc [] ys = refl
  entries_onto-append acc ([] ∷ xs) ys = entries_onto-append acc xs ys
  entries_onto-append acc ((ch ∷ text) ∷ xs) ys =
      entries_onto-append (push_entry (c.unmarshal (ch ∷ text)) acc) xs ys

  entries_onto-last :
      (acc : List Entry) (xs : List Str) (text : Str) (e : Entry)
      → text ≢ []
      → c.unmarshal text ≡ some e
      → entries_onto c acc (xs ++ text ∷ []) ≡ e ∷ entries_onto c acc xs
  unfolding entries_onto
  entries_onto-last acc xs [] e solid read = absurd (solid refl)
  entries_onto-last acc xs (ch ∷ text) e solid read =
      entries_onto-append acc xs ((ch ∷ text) ∷ []) ∙ rw read refl

  -- The file says what it said before, and this.
  abbrev Adds : AuditEntry → File → Logged → Type 0
  Adds body f done = bodies_in done.file ≡ body ∷ bodies_in f

  after_load-Adds :
      (now : ℕ) (e : Entry) (f : File) (r : Option Str × Logger)
      → CanWrite (no_failure, now, e)
      → IsLoaded c f r
      → Adds e.body f (after_load c no_failure now e r f)
  unfolding after_load write_entry write_text append_line seal
  after_load-Adds now e f (some failure, l) can (h, _, _) = cc
  after_load-Adds now e f (none, l) (_, writes, loggable) (_, loaded, sound) =
      let previous : IsPrevious c l.last_hash =
        subst (IsPrevious c) (sym (sound.in_step loaded)) (
          check_lines-IsPrevious c top sound.cursor (lines f) sound.solid sound.passes
            (inl refl)) in
      let (text, written) = writes l.last_hash previous in
      let (solid, _, read) = loggable l.last_hash text previous written in
      rw written (
        ap (λ ls. map (λ e. e.body) (entries_onto c [] ls))
          (lines-add_line c text (contents f) sound.whole)
        ∙ ap (map (λ e. e.body)) (entries_onto-last [] (lines f) text _ solid read))

  log_hitl_event-Adds :
      (io : Io) (now : ℕ) (e : Entry) (l : Logger) (f : File)
      → CanWrite (io, now, e)
      → IsSound c l f
      → Adds e.body f (log_hitl_event c io now e l f)
  unfolding log_hitl_event
  log_hitl_event-Adds io now e l f (works, writes, loggable) sound =
      subst (λ io. Adds e.body f (log_hitl_event c io now e l f)) (sym works)
        (after_load-Adds now e f _ (refl, writes, loggable)
          (load_last_hash-IsLoaded c no_failure f l.loaded l.last_hash (λ _. refl) sound))

  -- After any calls in which nothing fails the file says what it said before, and then what was
  -- logged, in its order.
  pub log_all-bodies :
      (calls : List (LogCall c)) (l : Logger) (f : File)
      → All CanWrite calls
      → IsSound c l f
      → bodies_in (log_all c calls l f).1 ≡ bodies_onto (bodies_in f) calls
  unfolding log_all
  log_all-bodies [] l f can sound = refl
  log_all-bodies ((io, now, e) ∷ calls) l f ((works, writes, loggable), can) sound =
      let done = log_hitl_event c io now e l f in
      let readable : io.opens_to_read ≡ true = ap (λ io. io.opens_to_read) works in
      log_all-bodies calls done.logger done.file can
        (log_hitl_event-IsSound c io now e l f loggable (tears-none io works) (λ _. readable) sound)
      ∙ ap (λ bs. bodies_onto bs calls)
          (log_hitl_event-Adds io now e l f (works, writes, loggable) sound)
