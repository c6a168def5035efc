-- ===== src/Agent/Logging/Tests.antt =====
-- The loggers at small events.
use deepagent.Base.{◌≡◌, refl, true, none, some, [], ◌∷◌, length}
use deepagent.Base.Text.{lit, str_eq}
use deepagent.Tools.Value.{Value, string, get, set}
use deepagent.Agent.Types.{ok, err}
use deepagent.Agent.Logging.{
  ToolCallEvent, tool_call, model_call, JsonLogger, tool_call_fields, log_json, log_in_context,
  new_context_logger, simple_lines,
}

abbrev failed : ToolCallEvent
failed = record {
  tool = lit "ls";
  args = none;
  result = Value.nil;
  error = some (lit "no disk");
  duration = lit "1s";
  timestamp = lit "2024-01-02T03:04:05";
  thread_id = lit "t";
  request_id = lit "t-7";
}

level :
    get (tool_call_fields (λ text. string text) failed) (lit "level") ≡ some (string (lit "error"))
unfolding tool_call_fields get set str_eq
level = refl

abbrev fresh : JsonLogger
fresh = record { out = []; has_metrics = true; recorded = [] }

unmarshalled :
    (log_json
      (λ text. string text)
      (λ fs. err (lit "bad"))
      (lit "now")
      fresh
      (tool_call (some failed))).out
    ≡ lit "{\"level\":\"error\",\"error\":\"json marshal failed: bad\"}" ∷ []
unfolding log_json
unmarshalled = refl

nil_event : log_json (λ text. string text) (λ fs. ok []) (lit "now") fresh (model_call none) ≡ fresh
unfolding log_json
nil_event = refl

in_context : length (log_in_context new_context_logger (tool_call (some failed))).tool_events ≡ 1
unfolding log_in_context
in_context = refl

lines : length (simple_lines (λ args. []) (λ v. []) (tool_call (some failed))) ≡ 6
unfolding simple_lines
lines = refl
