-- ===== src/Agent/Audit/Chain.antt =====
-- agent/hitl_audit.go: what the logger writes, the verification accepts.
use deepagent.Base.{
  ℕ, ◌+◌, ◌≡◌, ◌≢◌, refl, inl, sym, ap, ◌∙◌, Bool, true, false, Option, none, some, List, [], ◌∷◌,
  ◌++◌, All-append, append-nil, Bool-cases, inr, subst,
}
use deepagent.Base.Text.{Str, str_eq_refl}
use deepagent.Agent.Audit.{Entry, Codec, compute_hitl_audit_hash, fits}
use deepagent.Agent.Audit.Logger.{
  Logger, Io, Contents, File, contents, add_line, add_part, wrote, last_line, lines, read_last,
  read_file, load_last_hash, seal, append_line, write_text, write_entry, after_load, log_hitl_event,
}
use deepagent.Agent.Audit.Lines.{
  Solid, last_line-hash, all-fits, IsPrevious, check_lines-IsPrevious,
}
use deepagent.Agent.Audit.Verify.{
  pass, Cursor, top, check_entry, check_line, check_lines, pass-injective, check_lines-append,
}

module _ (c : Codec) where
  -- a sealed entry passes after its predecessor
  check_entry-seal :
      (n : ℕ) (k : Cursor) (now : ℕ) (e : Entry)
      → (k' : Cursor) × (check_entry c false n k (seal c now e k.prev_hash) ≡ pass k')
        × (k'.prev_hash ≡ (seal c now e k.prev_hash).hash)
  unfolding check_entry seal compute_hitl_audit_hash
  check_entry-seal n k now e =
      let sealed = seal c now e k.prev_hash in
      (
        record { prev_hash = sealed.hash; prev_ts = sealed.timestamp; line = n },
        rw (str_eq_refl k.prev_hash, str_eq_refl (c.digest _)),
        refl,
      )

  -- What the JSON of the entry `e`, logged at `now` after another or as the first, is relied on for:
  -- it is one line that is not blank, fits the scanner, and is read back as the entry that was written.
  abbrev pub Loggable : ℕ → Entry → Type 0
  Loggable now e =
      (prev text : Str)
      → IsPrevious c prev
      → c.marshal (seal c now e prev) ≡ some text
      → (text ≢ []) × (fits text ≡ true) × (c.unmarshal text ≡ some (seal c now e prev))

  -- so does the line on which it is written, if that fits
  check_line-seal :
      (k : Cursor) (now : ℕ) (e : Entry) (text : Str)
      → text ≢ []
      → fits text ≡ true
      → c.unmarshal text ≡ some (seal c now e k.prev_hash)
      → (k' : Cursor) × (check_line c false k text ≡ pass k')
        × (k'.prev_hash ≡ (seal c now e k.prev_hash).hash)
  unfolding check_line
  check_line-seal k now e [] solid short read = absurd (solid refl)
  check_line-seal k now e (ch ∷ text) solid short read =
      rw (short, read) (check_entry-seal (k.line + 1) k now e)

  -- The lines pass, none is blank, and a logger that has looked at them knows the last hash.
  pub record IsSound (l : Logger) (f : File) : Type 0 where
    pub cursor : Cursor
    pub passes : check_lines c false top (lines f) ≡ pass cursor
    pub solid : Solid c (lines f)
    pub whole : (contents f).rest ≡ []
    pub in_step : l.loaded ≡ true → l.last_hash ≡ cursor.prev_hash
    pub fresh : l.loaded ≡ false → l.last_hash ≡ []

  -- What loading is to achieve: no error, and a logger in step with the file.
  abbrev pub IsLoaded : File → Option Str × Logger → Type 0
  IsLoaded f r = (r.0 ≡ none) × (r.1.loaded ≡ true) × IsSound r.1 f

  last_line-Solid :
      (text : Str) (rest : List Str) → Solid c (text ∷ rest) → last_line (text ∷ rest) ≢ []
  unfolding last_line
  last_line-Solid text [] (p, _) = p
  last_line-Solid text (next ∷ rest) (_, h) = last_line-Solid next rest h

  read_last-some :
      (l : Logger) (text : Str) (e : Entry)
      → text ≢ []
      → c.unmarshal text ≡ some e
      → read_last c text l ≡ (none, record l { last_hash = e.hash })
  unfolding read_last
  read_last-some l [] e solid read = absurd (solid refl)
  read_last-some l (ch ∷ text) e solid read = simp (read, read_last)

  abbrev logger : Bool → Str → Logger
  logger b last = record { loaded = b; last_hash = last }

  -- what is to be shown of the first use, when nothing is loaded
  first_use :
      (f : File) (last : Str)
      → IsSound (logger false last) f
      → lines f ≡ []
      → IsSound (logger true last) f
  unfolding check_lines
  first_use f last h none_yet = record {
    cursor = h.cursor;
    passes = h.passes;
    solid = h.solid;
    whole = h.whole;
    in_step = λ _.
        h.fresh refl
        ∙ ap (λ (k : Cursor). k.prev_hash)
            (pass-injective (sym (ap (check_lines c false top) none_yet) ∙ h.passes));
    fresh = λ e. cc;
  }

  read_last-IsLoaded :
      (f : Contents) (last : Str) (ls : List Str)
      → IsSound (logger false last) (some f)
      → lines (some f) ≡ ls
      → IsLoaded (some f) (read_last c (last_line ls) (logger true last))
  unfolding read_last last_line
  read_last-IsLoaded f last [] h same = (refl, refl, first_use (some f) last h same)
  read_last-IsLoaded f last (text ∷ rest) h same =
      let solid = subst (Solid c) same h.solid in
      let passes = subst (λ ls. check_lines c false top ls ≡ pass h.cursor) same h.passes in
      let (e, read, last_one) = last_line-hash c top h.cursor text rest solid passes in
      rw
        (read_last-some (logger true last) (last_line (text ∷ rest)) e
          (last_line-Solid text rest solid) read)
        (
          refl,
          refl,
          record {
            cursor = h.cursor;
            passes = h.passes;
            solid = h.solid;
            whole = h.whole;
            in_step = λ _. last_one;
            fresh = λ h. cc;
          },
        )

  pub load_last_hash-IsLoaded :
      (io : Io) (f : File) (b : Bool) (last : Str)
      → (b ≡ false → io.opens_to_read ≡ true)
      → IsSound (logger b last) f
      → IsLoaded f (load_last_hash c io f (logger b last))
  unfolding load_last_hash read_file
  load_last_hash-IsLoaded io f true last readable h = (refl, refl, h)
  load_last_hash-IsLoaded io none false last readable h = (refl, refl, first_use none last h refl)
  load_last_hash-IsLoaded io (some f) false last readable h =
      rw (readable refl, all-fits c top h.cursor (lines (some f)) h.solid h.passes)
        (read_last-IsLoaded f last _ h refl)

  -- the file that a failed write leaves, which wrote nothing
  created :
      (l : Logger) (f : File) (n : ℕ) (text : Str)
      → n ≡ 0
      → IsSound l f
      → IsSound l (some (add_part n text (contents f)))
  created l f n text nothing h =
      let same : contents f ≡ add_part n text (contents f) =
        ap (λ r. record (contents f) { rest = r }) (sym (append-nil (contents f).rest))
        ∙ ap (λ n. add_part n text (contents f)) (sym nothing) in
      subst (λ after. IsSound l (some after)) same
        (record {
          cursor = h.cursor;
          passes = h.passes;
          solid = h.solid;
          whole = h.whole;
          in_step = h.in_step;
          fresh = h.fresh;
        })

  pub lines-add_line :
      (text : Str) (f : Contents)
      → f.rest ≡ []
      → lines (some (add_line text f)) ≡ lines (some f) ++ text ∷ []
  lines-add_line text f whole = rw whole refl

  extended :
      (l : Logger) (f : File) (h : IsSound l f) (k : Cursor) (text : Str)
      → l.loaded ≡ true
      → text ≢ []
      → check_line c false h.cursor text ≡ pass k
      → IsSound (record l { last_hash = k.prev_hash }) (some (add_line text (contents f)))
  unfolding check_lines
  extended l f h k text loaded solid passes =
      let grown = lines-add_line text (contents f) h.whole in
      record {
        cursor = k;
        passes =
            ap (check_lines c false top) grown
            ∙ check_lines-append c false top (lines f) (text ∷ [])
            ∙ rw (h.passes, passes) refl;
        solid =
            subst (Solid c) (sym grown) (All-append _ (lines f) (text ∷ []) h.solid (solid, tt));
        whole = refl;
        in_step = λ _. refl;
        fresh = λ e. cc;
      }

  -- A write that fails stops before the first byte.
  abbrev pub TearsNone : Io → Type 0
  TearsNone io = (n : ℕ) → io.stops_after ≡ some n → n ≡ 0

  wrote-IsSound :
      (stops : Option ℕ) (l : Logger) (f : File) (h : IsSound l f) (text hash : Str)
      → ((n : ℕ) → stops ≡ some n → n ≡ 0)
      → l.loaded ≡ true
      → (text ≢ [])
        × (k : Cursor) × (check_line c false h.cursor text ≡ pass k)
        × (k.prev_hash ≡ hash)
      → let done = wrote c stops text hash l (contents f) in IsSound done.logger done.file
  wrote-IsSound none l f h text hash whole loaded (solid, k, passes, last) =
      rw⁻¹ last (extended l f h k text loaded solid passes)
  wrote-IsSound (some n) l f h text hash whole loaded next = created l f n text (whole n refl) h

  write_text-IsSound :
      (io : Io) (l : Logger) (f : File) (h : IsSound l f) (o : Option Str) (hash : Str)
      → TearsNone io
      → l.loaded ≡ true
      → ((text : Str)
          → o ≡ some text
          → (text ≢ [])
            × (k : Cursor) × (check_line c false h.cursor text ≡ pass k)
            × (k.prev_hash ≡ hash))
      → let done = write_text c io o hash l f in IsSound done.logger done.file
  unfolding write_text append_line
  write_text-IsSound io l f h none hash tears loaded next = h
  write_text-IsSound io l f h (some text) hash tears loaded next =
      elim (Bool-cases io.opens_to_append) [
        | inl opens ↦
            rw opens (wrote-IsSound io.stops_after l f h text hash tears loaded (next text refl))
        | inr fails ↦ rw fails h
      ]

  write_entry-IsSound :
      (io : Io) (now : ℕ) (e : Entry) (l : Logger) (f : File)
      → Loggable now e
      → TearsNone io
      → l.loaded ≡ true
      → IsSound l f
      → let done = write_entry c io (seal c now e l.last_hash) l f in IsSound done.logger done.file
  unfolding write_entry
  write_entry-IsSound io now e l f short tears loaded h =
      write_text-IsSound io l f h _ _ tears loaded (λ text written.
        let same = h.in_step loaded in
        let previous =
          check_lines-IsPrevious c top h.cursor (lines f) h.solid h.passes (inl refl) in
        let (solid, fit, read) = short h.cursor.prev_hash text previous (rw same at written) in
        let (k, passes, last) = check_line-seal h.cursor now e text solid fit read in
        (solid, k, passes, rw same last))

  after_load-IsSound :
      (io : Io) (now : ℕ) (e : Entry) (f : File) (r : Option Str × Logger)
      → Loggable now e
      → TearsNone io
      → IsLoaded f r
      → let done = after_load c io now e r f in IsSound done.logger done.file
  unfolding after_load
  after_load-IsSound io now e f (some failure, l) short tears (h, _, _) = cc
  after_load-IsSound io now e f (none, l) short tears (_, loaded, sound) =
      write_entry-IsSound io now e l f short tears loaded sound

  -- When the entry is written so that it can be read, and the file can be read at the first use, then
  -- logging an event keeps the file verifiable and the logger in step with it, whatever fails, as long
  -- as a write that fails writes nothing.
  pub log_hitl_event-IsSound :
      (io : Io) (now : ℕ) (e : Entry) (l : Logger) (f : File)
      → Loggable now e
      → TearsNone io
      → (l.loaded ≡ false → io.opens_to_read ≡ true)
      → IsSound l f
      → let done = log_hitl_event c io now e l f in IsSound done.logger done.file
  unfolding log_hitl_event
  log_hitl_event-IsSound io now e l f short tears readable h =
      after_load-IsSound io now e f _ short tears
        (load_last_hash-IsLoaded io f l.loaded l.last_hash readable h)
