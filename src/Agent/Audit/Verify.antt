-- ===== src/Agent/Audit/Verify.antt =====
-- agent/hitl_audit.go: `verifyHITLAuditFileChain` and the strict validation of an entry.
use mathlib.Core.Path.{fun_ext}
use deepagent.Base.{
  ℕ, ◌+◌, ◌≡◌, ◌≢◌, refl, sym, ap, ◌∙◌, arith, Bool, true, false, ◌||◌, ◌&&◌, not, Option, none,
  some, List, [], ◌∷◌, ◌++◌, ltb, ◌==◌, if◌then◌else◌,
}
use deepagent.Base.Text.{Str, lit, is_empty, str_eq, str_eq_iff}
use deepagent.Agent.Audit.{Entry, Codec, compute_hitl_audit_hash, fits}

pub data StrictError : Type 0 where
  no_event no_timestamp not_monotonic no_tool no_tool_call_id no_thread_id no_request_id
        no_iteration no_decision :
      StrictError

-- With the number of the line.
pub data VerifyError : Type 0 where
  not_opened too_long : VerifyError
  invalid_json chain_mismatch hash_mismatch : ℕ → VerifyError
  strict_failure : ℕ → StrictError → VerifyError

pub data Checked {ℓ} (A : Type ℓ) : Type ℓ where
  pass : A → Checked A
  fail : VerifyError → Checked A

-- A failure ends the verification.
module _ {A B : Type 0} where
  infixl 5 ◌▹◌
  abbrev pub ◌▹◌ : Checked A → (A → Checked B) → Checked B
  fail failure ▹ next = fail failure
  pass found ▹ next = next found

-- The variables `prevHash`, `prevTS` and `line` of the loop.
pub record Cursor : Type 0 where
  pub prev_hash : Str
  pub prev_ts : ℕ
  pub line : ℕ

abbrev pub top : Cursor
top = record { prev_hash = []; prev_ts = 0; line = 0 }

-- the events of a request and of a decision
abbrev pub is_hitl : Str → Bool
is_hitl event = str_eq event (lit "hitl_request") || str_eq event (lit "hitl_decision")

-- the fields that the `switch` wants
unfoldable pub validate_fields : Entry → Option StrictError
validate_fields e =
    if is_empty e.body.tool
    then some no_tool
    else if is_empty e.body.tool_call_id
    then some no_tool_call_id
    else if is_empty e.body.thread_id
    then some no_thread_id
    else if is_empty e.body.request_id
    then some no_request_id
    else if e.body.iteration == 0
    then some no_iteration
    else if str_eq e.body.event (lit "hitl_decision") && is_empty e.body.decision
    then some no_decision
    else none

unfoldable pub validate_hitl_audit_entry_strict : Entry → ℕ → Option StrictError
unfolding validate_fields
validate_hitl_audit_entry_strict e prev_ts =
    if is_empty e.body.event
    then some no_event
    else if e.timestamp == 0
    then some no_timestamp
    else if not (prev_ts == 0) && ltb e.timestamp prev_ts
    then some not_monotonic
    else if is_hitl e.body.event
    then validate_fields e
    else none

module _ (c : Codec) (strict : Bool) where
  -- the tests of one entry, on line `n`
  unfoldable pub check_entry : ℕ → Cursor → Entry → Checked Cursor
  unfolding compute_hitl_audit_hash validate_hitl_audit_entry_strict
  check_entry n k e =
      let next = pass (record { prev_hash = e.hash; prev_ts = e.timestamp; line = n }) in
      if not (str_eq e.prev_hash k.prev_hash)
      then fail (chain_mismatch n)
      else if not (str_eq e.hash (compute_hitl_audit_hash c e))
      then fail (hash_mismatch n)
      else if strict
      then elim (validate_hitl_audit_entry_strict e k.prev_ts) [
        | some failure ↦ fail (strict_failure n failure)
        | none ↦ next
      ]
      else next

  unfoldable pub parse_line : ℕ → Cursor → Option Entry → Checked Cursor
  unfolding check_entry
  parse_line n k none = fail (invalid_json n)
  parse_line n k (some e) = check_entry n k e

  -- one turn of the loop: a blank line is passed over
  unfoldable pub check_line : Cursor → Str → Checked Cursor
  unfolding parse_line
  check_line k [] = pass (record k { line = k.line + 1 })
  check_line k (ch ∷ text) =
      if fits (ch ∷ text)
      then parse_line (k.line + 1) k (c.unmarshal (ch ∷ text))
      else fail too_long

  unfoldable pub check_lines : Cursor → List Str → Checked Cursor
  unfolding check_line
  check_lines k [] = pass k
  check_lines k (text ∷ rest) = check_line k text ▹ λ k'. check_lines k' rest

  -- `verifyHITLAuditFileChain` on a file, `none` if it cannot be opened
  unfoldable pub verify : Option (List Str) → Checked Cursor
  unfolding check_lines
  verify none = fail not_opened
  verify (some ls) = check_lines top ls

bind_assoc :
    {A B C : Type 0} (m : Checked A) (f : A → Checked B) (h : B → Checked C)
    → (m ▹ f ▹ h) ≡ (m ▹ λ a. f a ▹ h)
bind_assoc (pass a) f h = refl
bind_assoc (fail e) f h = refl

pub pass-injective : {A : Type 0} {a b : A} → pass a ≡ pass b → a ≡ b
pass-injective e = cc

pub step-pass :
    {A B : Type 0} (first : Checked A) (next : A → Checked B) {last : B}
    → (first ▹ next) ≡ pass last
    → (found : A) × (first ≡ pass found) × (next found ≡ pass last)
step-pass (fail failure) next h = cc
step-pass (pass found) next h = (found, refl, h)

pub if-pass :
    {A : Type 0} (b : Bool) (m : Checked A) (e : VerifyError) {a : A}
    → (if b then m else fail e) ≡ pass a
    → (b ≡ true) × (m ≡ pass a)
if-pass true m e h = (refl, h)
if-pass false m e h = cc

-- An entry that passes the tests after the cursor `k`, and the cursor that it leaves.
pub record IsLinked (c : Codec) (k : Cursor) (e : Entry) (k' : Cursor) : Type 0 where
  pub prev : e.prev_hash ≡ k.prev_hash
  pub sealed : e.hash ≡ compute_hitl_audit_hash c e
  pub last : k'.prev_hash ≡ e.hash
  pub time : k'.prev_ts ≡ e.timestamp

module _ (c : Codec) (strict : Bool) where
  pub check_lines-append :
      (k : Cursor) (xs ys : List Str)
      → check_lines c strict k (xs ++ ys)
        ≡ (check_lines c strict k xs ▹ λ k'. check_lines c strict k' ys)
  unfolding check_lines
  check_lines-append k [] ys = refl
  check_lines-append k (text ∷ xs) ys =
      ap (λ f. check_line c strict k text ▹ f) (fun_ext (λ k'. check_lines-append k' xs ys))
      ∙ sym (bind_assoc (check_line c strict k text) _ _)

  check_entry-IsLinked :
      (n : ℕ) (k k' : Cursor) (e : Entry) → check_entry c strict n k e ≡ pass k' → IsLinked c k e k'
  unfolding check_entry
  check_entry-IsLinked n k k' e h =
      ground
        (arith, str_eq_iff e.prev_hash k.prev_hash, str_eq_iff e.hash (compute_hitl_audit_hash c e))

  parse_line-IsLinked :
      (n : ℕ) (k k' : Cursor) (o : Option Entry)
      → parse_line c strict n k o ≡ pass k'
      → (e : Entry) × (o ≡ some e) × IsLinked c k e k'
  unfolding parse_line
  parse_line-IsLinked n k k' none h = cc
  parse_line-IsLinked n k k' (some e) h = (e, refl, check_entry-IsLinked n k k' e h)

  -- A line that is not blank and passes holds an entry that is linked.
  pub check_line-IsLinked :
      (k k' : Cursor) (text : Str)
      → text ≢ []
      → check_line c strict k text ≡ pass k'
      → (e : Entry) × (c.unmarshal text ≡ some e) × IsLinked c k e k' × (fits text ≡ true)
  unfolding check_line
  check_line-IsLinked k k' [] solid h = absurd (solid refl)
  check_line-IsLinked k k' (ch ∷ text) solid h =
      let (short, parsed) = if-pass (fits (ch ∷ text)) _ _ h in
      let (e, read, linked) = parse_line-IsLinked _ k k' _ parsed in (e, read, linked, short)
