-- ===== src/Agent/Audit/Strict.antt =====
-- agent/hitl_audit.go: what the strict verification demands beyond the chain of hashes.
use deepagent.Base.{
  ℕ, ◌≤◌, ◌≡◌, ◌≢◌, refl, subst, arith, inl, inr, true, false, Option, none, some, List, [], ◌∷◌,
  All, Option-cases,
}
use deepagent.Base.Text.{Str, lit, is_empty, str_eq_iff}
use deepagent.Agent.Audit.{Entry, Codec, fits}
use deepagent.Agent.Audit.Verify.{
  pass, Cursor, top, is_hitl, validate_fields, validate_hitl_audit_entry_strict, check_entry,
  parse_line, check_line, check_lines, verify, step-pass, pass-injective, if-pass,
}
use deepagent.Agent.Audit.Tamper.{push_entry, entries_onto}

-- An entry of a request or of a decision names its tool, its call, its thread, its request and its
-- iteration; that of a decision also the decision.
pub record IsTraceable (e : Entry) : Type 0 where
  pub tool : e.body.tool ≢ []
  pub tool_call_id : e.body.tool_call_id ≢ []
  pub thread_id : e.body.thread_id ≢ []
  pub request_id : e.body.request_id ≢ []
  pub iteration : e.body.iteration ≢ 0
  pub decision : e.body.event ≡ lit "hitl_decision" → e.body.decision ≢ []

pub record IsComplete (e : Entry) : Type 0 where
  pub event : e.body.event ≢ []
  pub timestamp : e.timestamp ≢ 0
  pub traceable : is_hitl e.body.event ≡ true → IsTraceable e

is_empty-false : (s : Str) → is_empty s ≡ false → s ≢ []
is_empty-false s h e = ground arith

validate_fields-IsTraceable : (e : Entry) → validate_fields e ≡ none → IsTraceable e
unfolding validate_fields
validate_fields-IsTraceable e h = record {
  tool = λ p. ground (arith);
  tool_call_id = λ p. ground (arith);
  thread_id = λ p. ground (arith);
  request_id = λ p. ground (arith);
  iteration = λ p. ground (arith);
  decision = λ d p. ground (arith, str_eq_iff e.body.event (lit "hitl_decision"));
}

validate-IsComplete :
    (e : Entry) (prev_ts : ℕ)
    → validate_hitl_audit_entry_strict e prev_ts ≡ none
    → IsComplete e × (prev_ts ≤ e.timestamp)
unfolding validate_hitl_audit_entry_strict
validate-IsComplete e prev_ts h = (
  record {
    event = λ p. ground (arith);
    timestamp = λ p. ground (arith);
    traceable = λ p. validate_fields-IsTraceable e (ground (arith));
  },
  ground (arith),
)

-- Newest first: no time stamp is after `now`, or after that of a newer entry.
abbrev pub InOrder : ℕ → List Entry → Type 0
InOrder now [] = Unit
InOrder now (e ∷ older) = (e.timestamp ≤ now) × InOrder e.timestamp older

InOrder-later : (t t' : ℕ) (es : List Entry) → t ≤ t' → InOrder t es → InOrder t' es
InOrder-later t t' [] h _ = tt
InOrder-later t t' (e ∷ older) h (k, rest) = (omega arith, rest)

module _ (c : Codec) where
  -- What a strict pass over a line shows.
  abbrev IsPlaced : Cursor → Entry → Cursor → Type 0
  IsPlaced k e k' = IsComplete e × (k.prev_ts ≤ e.timestamp) × (k'.prev_ts ≡ e.timestamp)

  check_entry-strict :
      (n : ℕ) (k k' : Cursor) (e : Entry)
      → check_entry c true n k e ≡ pass k'
      → (check_entry c false n k e ≡ pass k') × IsPlaced k e k'
  unfolding check_entry
  check_entry-strict n k k' e h =
      elim (Option-cases (validate_hitl_audit_entry_strict e k.prev_ts)) [
        | inl valid ↦
            let (complete, later) = validate-IsComplete e k.prev_ts valid in
            (ground (arith), (complete, later, ground (arith)))
        | inr (failure, invalid) ↦ ground (arith)
      ]

  parse_line-strict :
      (n : ℕ) (k k' : Cursor) (o : Option Entry)
      → parse_line c true n k o ≡ pass k'
      → (parse_line c false n k o ≡ pass k') × (e : Entry) × (o ≡ some e) × IsPlaced k e k'
  unfolding parse_line
  parse_line-strict n k k' none h = cc
  parse_line-strict n k k' (some e) h =
      let (lenient, placed) = check_entry-strict n k k' e h in (lenient, e, refl, placed)

  check_line-strict :
      (k k' : Cursor) (text : Str)
      → text ≢ []
      → check_line c true k text ≡ pass k'
      → (check_line c false k text ≡ pass k')
        × (e : Entry) × (c.unmarshal text ≡ some e)
        × IsPlaced k e k'
  unfolding check_line
  check_line-strict k k' [] solid h = absurd (solid refl)
  check_line-strict k k' (ch ∷ text) solid h =
      let (short, parsed) = if-pass (fits (ch ∷ text)) _ _ h in
      rw short (parse_line-strict _ k k' _ parsed)

  -- The entries seen so far are complete, and in the order of time.
  abbrev pub IsRegular : Cursor → List Entry → Type 0
  IsRegular k es = All IsComplete es × InOrder k.prev_ts es

  push-IsRegular :
      (k k' : Cursor) (o : Option Entry) (e : Entry) (acc : List Entry)
      → o ≡ some e
      → IsPlaced k e k'
      → IsRegular k acc
      → IsRegular k' (push_entry o acc)
  push-IsRegular k k' o e acc read (complete, later, at_ts) (all_complete, in_order) = rw read (
    (complete, all_complete),
    (omega arith, InOrder-later k.prev_ts e.timestamp acc later in_order),
  )

  check_lines-strict :
      (k k' : Cursor) (acc : List Entry) (ls : List Str)
      → check_lines c true k ls ≡ pass k'
      → IsRegular k acc
      → (check_lines c false k ls ≡ pass k') × IsRegular k' (entries_onto c acc ls)
  unfolding check_lines check_line entries_onto
  check_lines-strict k k' acc [] h regular =
      (h, subst (λ (r : Cursor). IsRegular r acc) (pass-injective h) regular)
  check_lines-strict k k' acc ([] ∷ rest) h regular = check_lines-strict _ k' acc rest h regular
  check_lines-strict k k' acc ((ch ∷ text) ∷ rest) h regular =
      let (k1, checked, later) = step-pass (check_line c true k (ch ∷ text)) _ h in
      let (lenient, e, read, placed) = check_line-strict k k1 (ch ∷ text) (λ p. cc) checked in
      let (others, all_regular) =
        check_lines-strict k1 k' (push_entry (c.unmarshal (ch ∷ text)) acc) rest later
          (push-IsRegular k k1 _ e acc read placed regular) in
      (rw lenient others, all_regular)

  -- A file that passes the strict verification passes the lenient one, and its entries are complete
  -- and in the order of time.
  pub verify-strict :
      (ls : List Str) (k : Cursor)
      → verify c true (some ls) ≡ pass k
      → (verify c false (some ls) ≡ pass k) × IsRegular k (entries_onto c [] ls)
  unfolding verify entries_onto
  verify-strict ls k h = check_lines-strict top k [] ls h (tt, tt)
