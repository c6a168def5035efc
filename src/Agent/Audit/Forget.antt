-- ===== src/Agent/Audit/Forget.antt =====
-- agent/hitl_audit.go: a logger that could not read its file at the first use counts it as read.
use deepagent.Base.{
  ℕ, ◌+◌, ◌≡◌, ◌≢◌, refl, inl, ap, ◌∙◌, arith, true, false, Option, none, some, List, [], ◌∷◌,
}
use deepagent.Base.Text.{Str, str_eq_iff}
use deepagent.Agent.Audit.{Entry, Codec, fits}
use deepagent.Agent.Audit.Logger.{
  Logger, Io, Contents, scanned, Logged, new_logger, load_last_hash, read_file, seal, write_text,
  write_entry, append_line, after_load, log_hitl_event,
}
use deepagent.Agent.Audit.Chain.{Loggable}
use deepagent.Agent.Audit.Verify.{
  pass, fail, chain_mismatch, Cursor, top, check_entry, check_line, verify, check_lines-append,
}

-- Nothing can be read; and everything works.
abbrev pub no_reading : Io
no_reading = record { opens_to_read = false; opens_to_append = true; stops_after = none }

abbrev pub no_failure : Io
no_failure = record { opens_to_read = true; opens_to_append = true; stops_after = none }

-- The file of these lines, the last of which ends in a line feed.
abbrev pub whole_file : List Str → Contents
whole_file ls = record { ended = ls; rest = [] }

module _ (c : Codec) where
  mismatch :
      (n : ℕ) (k : Cursor) (e : Entry)
      → k.prev_hash ≢ e.prev_hash
      → check_entry c false n k e ≡ fail (chain_mismatch n)
  unfolding check_entry
  mismatch n k e chained = ground (arith, str_eq_iff e.prev_hash k.prev_hash)

  unchained :
      (k : Cursor) (e : Entry) (now : ℕ) (text : Str)
      → k.prev_hash ≢ []
      → text ≢ []
      → fits text ≡ true
      → c.unmarshal text ≡ some (seal c now e [])
      → check_line c false k text ≡ fail (chain_mismatch (k.line + 1))
  unfolding check_line seal
  unchained k e now [] chained solid short read = absurd (solid refl)
  unchained k e now (ch ∷ text) chained solid short read =
      rw (short, read) (mismatch (k.line + 1) k _ chained)

  -- On a file that ends in a line feed, verifies and whose last entry has a hash: a first call that
  -- cannot open the file returns an error, but the next call, with nothing failing and an entry that
  -- is written so that it can be read back, starts a new chain at the end of the file, which from
  -- then on does not verify.
  pub log_hitl_event-forgets :
      (ls : List Str) (k : Cursor) (now now' : ℕ) (e e' : Entry) (text : Str)
      → verify c false (some ls) ≡ pass k
      → k.prev_hash ≢ []
      → c.marshal (seal c now' e' []) ≡ some text
      → Loggable c now' e'
      → let first = log_hitl_event c no_reading now e new_logger (some (whole_file ls)) in
        let second = log_hitl_event c no_failure now' e' first.logger first.file in
        (first.error ≢ none)
        × (second.error ≡ none)
        × (verify c false (scanned second.file) ≡ fail (chain_mismatch (k.line + 1)))
  unfolding verify log_hitl_event load_last_hash read_file after_load write_entry write_text
      append_line
  log_hitl_event-forgets ls k now now' e e' text passes chained written loggable =
      let (solid, short, read) = loggable [] text (inl refl) written in
      let forgetful : Logger = record { loaded = true; last_hash = [] } in
      let outcome : (o : Option Str) → Logged =
        λ o. write_text c no_failure o (seal c now' e' []).hash forgetful (some (whole_file ls)) in
      (
        λ h. cc,
        ap (λ o. (outcome o).error) written,
        ap (λ o. verify c false (scanned (outcome o).file)) written
            ∙ check_lines-append c false top ls (text ∷ [])
            ∙ rw (passes, unchained k e' now' text chained solid short read) refl,
      )
