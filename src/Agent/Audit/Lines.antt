-- ===== src/Agent/Audit/Lines.antt =====
-- agent/hitl_audit.go: what the lines of a file that passes hold.
use deepagent.Base.{
  ◌≡◌, ◌≢◌, refl, sym, ap, ◌∙◌, ◌⊎◌, inr, true, false, some, List, [], ◌∷◌, all, All,
}
use deepagent.Base.Text.{Str}
use deepagent.Agent.Audit.{Entry, Payload, Codec, payload, compute_hitl_audit_hash, fits}
use deepagent.Agent.Audit.Logger.{last_line}
use deepagent.Agent.Audit.Verify.{
  pass, Cursor, check_line, check_lines, step-pass, pass-injective, check_line-IsLinked,
}

module _ (c : Codec) where
  abbrev pub Solid : List Str → Type 0
  Solid = All (λ (text : Str). text ≢ [])

  -- The hash that the last line of a file that passes holds is the one that the next line wants.
  pub last_line-hash :
      (k k' : Cursor) (text : Str) (rest : List Str)
      → Solid (text ∷ rest)
      → check_lines c false k (text ∷ rest) ≡ pass k'
      → (e : Entry) × (c.unmarshal (last_line (text ∷ rest)) ≡ some e) × (e.hash ≡ k'.prev_hash)
  unfolding check_lines last_line
  last_line-hash k k' text [] (solid, _) h =
      let (k1, checked, same) = step-pass (check_line c false k text) _ h in
      let (e, read, linked, _) = check_line-IsLinked c false k k1 text solid checked in
      (e, read, sym linked.last ∙ ap (λ (r : Cursor). r.prev_hash) (pass-injective same))
  last_line-hash k k' text (next ∷ rest) (_, solid) h =
      let (k1, _, later) = step-pass (check_line c false k text) _ h in
      last_line-hash k1 k' next rest solid later

  -- Every line of a file that passes fits the scanner.
  pub all-fits :
      (k k' : Cursor) (ls : List Str)
      → Solid ls
      → check_lines c false k ls ≡ pass k'
      → all fits ls ≡ true
  unfolding check_lines
  all-fits k k' [] solid h = refl
  all-fits k k' (text ∷ rest) (p, solid) h =
      let (k1, checked, later) = step-pass (check_line c false k text) _ h in
      let (_, _, _, short) = check_line-IsLinked c false k k1 text p checked in
      rw short (all-fits k1 k' rest solid later)

  -- The hash that an entry can name as its predecessor's: none, or the hash of some contents.
  abbrev pub IsPrevious : Str → Type 0
  IsPrevious prev = (prev ≡ []) ⊎ ((p : Payload) × (prev ≡ c.digest p))

  hash-IsPrevious :
      (e : Entry) (last : Str)
      → last ≡ e.hash
      → e.hash ≡ compute_hitl_audit_hash c e
      → IsPrevious last
  unfolding compute_hitl_audit_hash
  hash-IsPrevious e last same sealed = inr (payload e, same ∙ sealed)

  -- The hash that the line after lines that pass is to name.
  pub check_lines-IsPrevious :
      (k k' : Cursor) (ls : List Str)
      → Solid ls
      → check_lines c false k ls ≡ pass k'
      → IsPrevious k.prev_hash
      → IsPrevious k'.prev_hash
  unfolding check_lines
  check_lines-IsPrevious k k' [] solid h previous =
      rw (ap (λ (r : Cursor). r.prev_hash) (pass-injective h)) at previous
  check_lines-IsPrevious k k' (text ∷ rest) (p, solid) h previous =
      let (k1, checked, later) = step-pass (check_line c false k text) _ h in
      let (e, _, linked, _) = check_line-IsLinked c false k k1 text p checked in
      check_lines-IsPrevious k1 k' rest solid later
        (hash-IsPrevious e k1.prev_hash linked.last linked.sealed)
