-- ===== src/Agent/Audit/Trail/Tests.antt =====
-- A run in which the human refuses a call, and its audit file with a small JSON.
use mathlib.Core.Path.{subst}
use deepagent.Base.{
  ℕ, zero, suc, ◌≡◌, ◌≢◌, ◌<◌, refl, ◌⊎◌, inl, inr, true, false, Option, none, some, List, [], ◌∷◌,
  ◌++◌, ◌==◌, arith, if◌then◌else◌,
}
use deepagent.Base.Text.{Str, lit, len, str_eq}
use deepagent.Tools.Value
use deepagent.Agent.Types.{ok, Input, Output, AgentError, Action, ApprovalRequest, AuditEntry}
use deepagent.Agent.Graph.{Tool, Graph, Run, lookup, should_interrupt, audit_args_payload}
use deepagent.Agent.Graph.Trail.{entries_of, history, request_entry, decision_entry, run-Trail}
use deepagent.Agent.Graph.Turns.{run, finish}
use deepagent.Agent.Audit.{Entry, Codec, payload, compute_hitl_audit_hash, fits}
use deepagent.Agent.Audit.Logger.{new_logger, seal}
use deepagent.Agent.Audit.Lines.{IsPrevious}
use deepagent.Agent.Audit.Forget.{no_failure}
use deepagent.Agent.Audit.History.{LogCall, Verifies, log_all}
use deepagent.Agent.Audit.Tamper.{entries_onto}
use deepagent.Agent.Audit.Written.{CanWrite, bodies_in}
use deepagent.Agent.Audit.Trail.{run-IsOnFile}

abbrev rm : Tool ℕ
rm = record {
  name = lit "rm";
  description = [];
  parameters = Value.nil;
  call = λ args w. (ok Value.nil, w);
}

-- The world is the number of questions to the model.
abbrev agent : Graph ℕ
agent = record {
  invoke = λ messages specs w. (
    elim w [
      | zero ↦ ok ([], record { id = lit "1"; name = lit "rm"; arguments = lit "{}" } ∷ [])
      | suc _ ↦ ok (lit "done", [])
    ],
    suc w,
  );
  tools = (lit "rm", rm) ∷ [];
  prompt = lit "be kind";
  load = λ thread w. (ok none, w);
  save = λ thread s w. w;
  put = λ thread key result w. w;
  config = (lit "rm", true) ∷ [];
  approver = λ question w. ((lit "rejected", some (lit "no")), w);
  has_event_sink = false;
  has_audit = true;
  include_args = false;
  validate = λ schema args. none;
  decode_args = λ text. none;
  decode = λ text. none;
  encode = λ result. ok result.tool;
  hash = λ text. text;
  now = λ w. lit "7";
}

abbrev ask : Input
ask = record {
  messages = record { role = lit "user"; content = lit "hi" } ∷ [];
  thread_id = lit "t";
}

abbrev actions_of : Option ((Output ⊎ AgentError) × Run ℕ) → List Action
actions_of none = []
actions_of (some (_, r)) = r.actions

abbrev question : ApprovalRequest
question = record {
  tool = lit "rm";
  args = lit "{}";
  thread_id = lit "t";
  request_id = lit "t-7";
  tool_call_id = lit "1";
  iteration = 1;
}

abbrev request : AuditEntry
request = request_entry agent question

abbrev refusal : AuditEntry
refusal = decision_entry agent question (lit "rejected") (some (lit "no"))

asked_once : entries_of (actions_of (run agent ask 0)) ≡ refusal ∷ request ∷ []
unfolding run lookup should_interrupt str_eq finish audit_args_payload
asked_once = refl

run-Trail_example :
    entries_of (actions_of (run agent ask 0)) ≡ history agent (actions_of (run agent ask 0))
unfolding run lookup should_interrupt str_eq finish audit_args_payload
run-Trail_example = run-Trail agent ask 0 _ _ refl refl

-- A line is the number of the body, the time stamp and the hash of the entry before; the hash is the
-- time stamp.
abbrev body_at : ℕ → AuditEntry
body_at n = if n == 1 then request else refusal

abbrev number_of : AuditEntry → ℕ
number_of e = if str_eq e.event (lit "hitl_request") then 1 else 2

abbrev read : Str → Option Entry
read (n ∷ ts ∷ prev) =
    some (record { timestamp = ts; body = body_at n; prev_hash = prev; hash = ts ∷ [] })
read _ = none

abbrev codec : Codec
codec = record {
  marshal = λ e. some (number_of e.body ∷ e.timestamp ∷ e.prev_hash);
  unmarshal = read;
  digest = λ p. p.timestamp ∷ [];
}

abbrev entry : AuditEntry → Entry
entry body = record { timestamp = 0; body = body; prev_hash = []; hash = [] }

short :
    (n ts : ℕ) (prev : Str)
    → n < 128
    → ts < 128
    → IsPrevious codec prev
    → fits (n ∷ ts ∷ prev) ≡ true
unfolding len
short n ts prev small small' (inl first) = rw first (ground arith)
short n ts prev small small' (inr (p, later)) = rw later (ground arith)

some-same : {a b : Str} → some a ≡ some b → a ≡ b
some-same h = cc

request-CanWrite : CanWrite codec (no_failure, 5, entry request)
unfolding seal compute_hitl_audit_hash payload str_eq
request-CanWrite = (
  refl,
  λ prev previous. (_, refl),
  λ prev text previous written.
      subst
        (λ (t : Str).
          (t ≢ []) × (fits t ≡ true) × (read t ≡ some (seal codec 5 (entry request) prev)))
        (some-same written) ((λ e. cc), short 1 5 prev (omega arith) (omega arith) previous, refl),
)

refusal-CanWrite : CanWrite codec (no_failure, 7, entry refusal)
unfolding seal compute_hitl_audit_hash payload str_eq
refusal-CanWrite = (
  refl,
  λ prev previous. (_, refl),
  λ prev text previous written.
      subst
        (λ (t : Str).
          (t ≢ []) × (fits t ≡ true) × (read t ≡ some (seal codec 7 (entry refusal) prev)))
        (some-same written) ((λ e. cc), short 2 7 prev (omega arith) (omega arith) previous, refl),
)

abbrev two_entries : List (LogCall codec)
two_entries = (no_failure, 5, entry request) ∷ (no_failure, 7, entry refusal) ∷ []

run-IsOnFile_example :
    Verifies codec (log_all codec two_entries new_logger none).1
    × (bodies_in codec (log_all codec two_entries new_logger none).1
        ≡ history agent (actions_of (run agent ask 0)) ++ [])
unfolding run lookup should_interrupt str_eq finish audit_args_payload entries_onto
run-IsOnFile_example =
    run-IsOnFile codec agent ask 0 _ _ two_entries none refl refl refl
      (request-CanWrite, (refusal-CanWrite, tt)) tt refl (inl refl)
