-- ===== src/Agent/Checkpointer/Runs/Tests.antt =====
-- Two runs on a thread with its checkpoints on a disk, which is the world.
use deepagent.Base.{
  ℕ, zero, suc, ◌≡◌, refl, ap, sym, ◌∙◌, ◌⊎◌, inl, inr, true, false, Option, none, some, List, [],
  ◌∷◌, ◌++◌, length,
}
use deepagent.Base.Text.{Str, lit, str_eq, contains, contains_any, has_prefix, split_by}
use deepagent.Base.Path.{named_parts, joined, join, clean}
use deepagent.Agent.Types.{Result, ok, Input, Message, State, Output, AgentError, Action}
use deepagent.Agent.Graph.{Graph, Run}
use deepagent.Agent.Graph.Outcome.{EndsWell}
use deepagent.Agent.Graph.Turns.{run, finish}
use deepagent.Memory.{find, insert}
use deepagent.Agent.Checkpointer.{Library, Disk, validate_path_component, save, load}
use deepagent.Agent.Checkpointer.Runs.{HasDisk, ReadsBack, on_files, run-Reloads}

-- The JSON writes the length of a text before it, and the number of the messages before them.
abbrev written : Str → Str → Str
written s rest = length s ∷ (s ++ rest)

abbrev all_written : List Message → Str → Str
all_written [] rest = rest
all_written (m ∷ ms) rest = written m.role (written m.content (all_written ms rest))

abbrev front : ℕ → Str → Str × Str
front zero rest = ([], rest)
front (suc n) [] = ([], [])
front (suc n) (c ∷ rest) = let (s, rest') = front n rest in (c ∷ s, rest')

abbrev taken : Str → Str × Str
taken [] = ([], [])
taken (n ∷ rest) = front n rest

abbrev all_taken : ℕ → Str → List Message × Str
all_taken zero rest = ([], rest)
all_taken (suc n) text =
    let (role, after_role) = taken text in
    let (content, after) = taken after_role in
    let (ms, rest) = all_taken n after in (record { role = role; content = content } ∷ ms, rest)

abbrev texts_written : List Str → Str → Str
texts_written [] rest = rest
texts_written (s ∷ ss) rest = written s (texts_written ss rest)

abbrev texts_taken : ℕ → Str → List Str × Str
texts_taken zero rest = ([], rest)
texts_taken (suc n) text =
    let (s, after) = taken text in let (ss, rest) = texts_taken n after in (s ∷ ss, rest)

abbrev calls_taken : Str → List Str × Str
calls_taken [] = ([], [])
calls_taken (n ∷ rest) = texts_taken n rest

front-length : (s rest : Str) → front (length s) (s ++ rest) ≡ (s, rest)
front-length [] rest = refl
front-length (c ∷ s) rest = ap (λ (p : Str × Str). (c ∷ p.0, p.1)) (front-length s rest)

all_taken-all_written :
    (ms : List Message) (rest : Str) → all_taken (length ms) (all_written ms rest) ≡ (ms, rest)
all_taken-all_written [] rest = refl
all_taken-all_written (m ∷ ms) rest =
    rw (front-length m.role (written m.content (all_written ms rest)))
      (rw (front-length m.content (all_written ms rest)) (rw (all_taken-all_written ms rest) refl))

texts_taken-texts_written :
    (ss : List Str) (rest : Str) → texts_taken (length ss) (texts_written ss rest) ≡ (ss, rest)
texts_taken-texts_written [] rest = refl
texts_taken-texts_written (s ∷ ss) rest =
    rw (front-length s (texts_written ss rest)) (rw (texts_taken-texts_written ss rest) refl)

-- What stands behind the messages.
abbrev tail_of : State → Str
tail_of s =
    written s.thread_id
      (written s.final (length s.tool_calls ∷ texts_written s.tool_calls (s.iteration ∷ [])))

abbrev text_of : State → Str
text_of s = length s.messages ∷ all_written s.messages (tail_of s)

abbrev last_number : Str → ℕ
last_number [] = 0
last_number (n ∷ _) = n

abbrev state_in : Str → State
state_in [] = record { messages = []; tool_calls = []; thread_id = []; iteration = 0; final = [] }
state_in (n ∷ text) =
    let (ms, after) = all_taken n text in
    let (thread, after_thread) = taken after in
    let (final, after_final) = taken after_thread in
    let (calls, rest) = calls_taken after_final in
    record {
      messages = ms;
      tool_calls = calls;
      thread_id = thread;
      iteration = last_number rest;
      final = final;
    }

state_in-text_of : (s : State) → state_in (text_of s) ≡ s
state_in-text_of s =
    let calls = length s.tool_calls ∷ texts_written s.tool_calls (s.iteration ∷ []) in
    rw (all_taken-all_written s.messages (tail_of s)) (
      rw (front-length s.thread_id (written s.final calls)) (
        rw (front-length s.final calls)
          (rw (texts_taken-texts_written s.tool_calls (s.iteration ∷ [])) refl)))

abbrev library : Library
library = record {
  quote = λ v. v;
  marshal = λ s. ok (text_of s);
  unmarshal = λ text. ok (state_in text);
}

same-text : {a b : Str} → ◌≡◌ {A = Result Str} (ok a) (ok b) → a ≡ b
same-text h = cc

library-ReadsBack : ReadsBack library
library-ReadsBack = record {
  marshals = λ s. (_, refl);
  faithful = λ s. record {
    reads_back = λ text h. ap ok (ap state_in (sym (same-text h)) ∙ state_in-text_of s);
  };
}

abbrev world : HasDisk Disk
world = record { disk = λ d. d; with_disk = λ w d. d; disk-with_disk = λ w d. refl }

abbrev plain : Graph Disk
plain = record {
  invoke = λ messages specs w. (ok (lit "done", []), w);
  tools = [];
  prompt = lit "be kind";
  load = λ thread w. (ok none, w);
  save = λ thread s w. w;
  put = λ thread key result w. w;
  config = [];
  approver = λ question w. ((lit "rejected", some (lit "no")), w);
  has_event_sink = true;
  has_audit = false;
  include_args = false;
  validate = λ schema args. none;
  decode_args = λ text. none;
  decode = λ text. none;
  encode = λ result. ok result.tool;
  hash = λ text. text;
  now = λ w. lit "7";
}

abbrev agent : Graph Disk
agent = on_files world library (lit "d") plain

abbrev saying : Str → Input
saying text = record {
  messages = record { role = lit "user"; content = text } ∷ [];
  thread_id = lit "t";
}

abbrev Ended : Type 0
Ended = Option ((Output ⊎ AgentError) × Run Disk)

abbrev state_of : Ended → State
state_of none = state_in []
state_of (some (_, r)) = r.state

abbrev world_of : Ended → Disk
world_of none = []
world_of (some (_, r)) = r.world

abbrev actions_of : Ended → List Action
actions_of none = []
actions_of (some (_, r)) = r.actions

abbrev outcome_of : Ended → Output ⊎ AgentError
outcome_of none = inl (record { messages = []; final = []; thread_id = []; request_id = [] })
outcome_of (some (out, _)) = out

abbrev messages_of : Output ⊎ AgentError → List Message
messages_of (inl out) = out.messages
messages_of (inr e) = []

abbrev first_run : Ended
first_run = run agent (saying (lit "hi")) []

abbrev second_run : Ended
second_run = run agent (saying (lit "go on")) (world_of first_run)

five_messages : ◌≡◌ {A = ℕ} (length (messages_of (outcome_of second_run))) 5
unfolding run finish save load insert find validate_path_component has_prefix contains contains_any
    str_eq clean split_by named_parts joined join
five_messages = refl

run-Reloads_example :
    EndsWell
      (record (state_of first_run) {
        messages =
            messages_of (outcome_of first_run)
            ++ record { role = lit "user"; content = lit "go on" } ∷ [];
      })
      (outcome_of second_run)
      (actions_of second_run)
      (state_of second_run)
unfolding run finish save load insert find validate_path_component has_prefix contains contains_any
    str_eq clean split_by named_parts joined join
run-Reloads_example =
    run-Reloads world library (lit "d") library-ReadsBack plain (saying (lit "hi"))
      (saying (lit "go on")) [] _ _ _ _ (λ e. cc) refl refl refl
