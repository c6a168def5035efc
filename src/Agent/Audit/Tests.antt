-- ===== src/Agent/Audit/Tests.antt =====
-- A small log, and the theorems about logs at it.
use deepagent.Base.{
  ℕ, ◌≡◌, subst, Bool-cases, ◌≢◌, refl, inl, inr, true, false, Option, none, some, List, [], ◌∷◌,
  arith, All, if◌then◌else◌,
}
use deepagent.Base.Text.{Str, lit, len, str_eq}
use deepagent.Agent.Types.{AuditEntry}
use deepagent.Agent.Audit.{Entry, Codec, compute_hitl_audit_hash, payload, fits}
use deepagent.Agent.Audit.Logger.{scanned, new_logger, load_last_hash, seal, log_hitl_event}
use deepagent.Agent.Audit.Verify.{pass, fail, chain_mismatch, Cursor, top, check_lines, verify}
use deepagent.Agent.Audit.Chain.{Loggable}
use deepagent.Agent.Audit.History.{
  LogCall, Verifies, IsRecorded, log_all, log_all-Verifies, log_hitl_event-IsRecorded,
}
use deepagent.Agent.Audit.Forget.{whole_file, no_reading, no_failure, log_hitl_event-forgets}
use deepagent.Agent.Audit.Tamper.{NoCollision, entries_onto, verify-binding}

abbrev request : AuditEntry
request = record {
  event = lit "hitl_request";
  tool = lit "rm";
  tool_call_id = lit "1";
  thread_id = lit "t";
  request_id = lit "r";
  iteration = 1;
  arguments = none;
  args_hash = lit "h";
  decision = [];
  approved = false;
  error = [];
}

-- Only time stamps and hashes below 128 are told apart.
abbrev sealed_at : ℕ → Str → Str → Entry
sealed_at ts prev hash = record { timestamp = ts; body = request; prev_hash = prev; hash = hash }

abbrev digest_of : ℕ → Str
digest_of ts = ts ∷ ts ∷ []

abbrev written : Str → Option Str
written text = if fits text then some text else none

abbrev read : Str → Option Entry
read [] = none
read (ts ∷ prev) = some (sealed_at ts prev (digest_of ts))

abbrev pub codec : Codec
codec = record {
  marshal = λ e. written (e.timestamp ∷ e.prev_hash);
  unmarshal = read;
  digest = λ p. digest_of p.timestamp;
}

abbrev entry : Entry
entry = sealed_at 0 [] []

abbrev pub two_events : List Str
two_events = (5 ∷ []) ∷ (7 ∷ 5 ∷ 5 ∷ []) ∷ []

abbrev pub after_two : Cursor
after_two = record { prev_hash = 7 ∷ 7 ∷ []; prev_ts = 7; line = 2 }

two_events-verify : verify codec true (some two_events) ≡ pass after_two
unfolding verify str_eq len
two_events-verify = refl

wrong_link-fails :
    verify codec false (some ((5 ∷ []) ∷ (7 ∷ 6 ∷ 5 ∷ []) ∷ [])) ≡ fail (chain_mismatch 2)
unfolding verify str_eq len
wrong_link-fails = refl

written-some : (t text : Str) → written t ≡ some text → (fits t ≡ true) × (t ≡ text)
written-some t text h = elim (Bool-cases (fits t)) [
  | inl short ↦ (short, ground (arith))
  | inr long ↦ ground (arith)
]

pub entry-Loggable : (now : ℕ) → Loggable codec now entry
unfolding seal compute_hitl_audit_hash payload
entry-Loggable now prev text previous h =
    let (short, same) = written-some (now ∷ prev) text h in
    subst (λ (t : Str). (t ≢ []) × (fits t ≡ true) × (read t ≡ some (seal codec now entry prev)))
      same ((λ e. cc), short, refl)

empty-passes : check_lines codec false top [] ≡ pass top
unfolding check_lines
empty-passes = refl

pub two_events-lenient : verify codec false (some two_events) ≡ pass after_two
unfolding verify str_eq len
two_events-lenient = refl

eleven-written : codec.marshal (seal codec 11 entry []) ≡ some (11 ∷ [])
unfolding seal len
eleven-written = refl

two_events-distinct :
    All (NoCollision codec (entries_onto codec [] two_events)) (entries_onto codec [] two_events)
unfolding entries_onto compute_hitl_audit_hash payload
two_events-distinct =
    (((λ e. cc), ((λ e. refl), ((λ e. cc), tt))), (((λ e. cc), ((λ e. cc), ((λ e. refl), tt))), tt))

log_hitl_event-IsRecorded_example :
    IsRecorded codec 5 entry [] none (log_hitl_event codec no_reading 5 entry new_logger none)
unfolding load_last_hash
log_hitl_event-IsRecorded_example =
    log_hitl_event-IsRecorded codec no_reading 5 entry new_logger none

abbrev pub two_calls : List (LogCall codec)
two_calls = (no_failure, 5, entry) ∷ (no_failure, 7, entry) ∷ []

log_all-Verifies_example :
    Verifies codec (log_all codec two_calls new_logger (some (whole_file two_events))).1
log_all-Verifies_example =
    log_all-Verifies codec two_calls (some (whole_file two_events))
      ((refl, (λ n h. cc), entry-Loggable 5), ((refl, (λ n h. cc), entry-Loggable 7), tt))
      ((λ e. cc), ((λ e. cc), tt)) refl (inr (after_two, two_events-lenient))

log_hitl_event-forgets_example :
    let first = log_hitl_event codec no_reading 9 entry new_logger (some (whole_file two_events)) in
    let second = log_hitl_event codec no_failure 11 entry first.logger first.file in
    (first.error ≢ none)
    × (second.error ≡ none)
    × (verify codec false (scanned second.file) ≡ fail (chain_mismatch 3))
log_hitl_event-forgets_example =
    log_hitl_event-forgets codec two_events after_two 9 11 entry entry (11 ∷ []) two_events-lenient
      (λ e. cc) eleven-written (entry-Loggable 11)

verify-binding_example : entries_onto codec [] two_events ≡ entries_onto codec [] two_events
verify-binding_example =
    verify-binding codec true true two_events two_events after_two after_two two_events-distinct
      two_events-distinct two_events-verify two_events-verify refl
