-- ===== src/Agent/Logging.antt =====
-- agent/logging.go and agent/json_logger.go: the loggers. A time stamp, a duration and a rate are
-- the texts or values that the event formats to.
mod Tests
use deepagent.Base.{ℕ, Bool, true, false, Option, none, some, List, [], ◌∷◌, ◌++◌, if◌then◌else◌}
use deepagent.Base.Text.{Str, lit, is_empty}
use deepagent.Base.Decimal.{itoa}
use deepagent.Tools.Value.{Value, nil, string, int, object, Fields, no_field, field, set, Args}
use deepagent.Agent.Types.{Result, ok, err}

pub record ToolCallEvent : Type 0 where
  pub tool : Str
  pub args : Args
  pub result : Value
  pub error : Option Str
  pub duration : Str
  pub timestamp : Str
  pub thread_id : Str
  pub request_id : Str

pub record ModelCallEvent : Type 0 where
  pub model : Str
  pub message_count : ℕ
  pub tool_count : ℕ
  pub duration : Str
  pub timestamp : Str
  pub thread_id : Str
  pub request_id : Str
  pub error : Option Str

-- `RunSummaryEvent` as the loggers use it, with the rate as a percentage for the line.
pub record RunSummaryEvent : Type 0 where
  pub thread_id : Str
  pub request_id : Str
  pub duration : Str
  pub iterations : ℕ
  pub model_calls : ℕ
  pub model_errors : ℕ
  pub tool_calls : ℕ
  pub tool_errors : ℕ
  pub tool_error_rate : Value
  pub percentage : Str
  pub error : Str

-- A call of one of the three methods of a `Logger`; a nil event is `none`.
pub data LogEvent : Type 0 where
  tool_call : Option ToolCallEvent → LogEvent
  model_call : Option ModelCallEvent → LogEvent
  run_summary : Option RunSummaryEvent → LogEvent

-- The lines of `SimpleLogger`.
abbrev pub status_of : Option Str → Str
status_of none = lit "success"
status_of (some e) = lit "error"

abbrev pub error_line : Option Str → List Str
error_line none = []
error_line (some e) = (lit "  Error: " ++ e) ∷ []

abbrev pub id_lines : Str → Str → List Str
id_lines thread request = (lit "  ThreadID: " ++ thread) ∷ (lit "  RequestID: " ++ request) ∷ []

-- `show_args` and `show_value` are `%v`
module _ (show_args : Args → Str) (show_value : Value → Str) where
  unfoldable pub tool_call_lines : ToolCallEvent → List Str
  tool_call_lines e =
      (lit "["
        ++ (e.timestamp
            ++ (lit "] TOOL CALL "
                ++ (e.tool
                    ++ (lit ": "
                        ++ (status_of e.error ++ (lit " (took " ++ (e.duration ++ lit ")"))))))))
      ∷ (error_line e.error
          ++ ((lit "  Args: " ++ show_args e.args)
              ∷ (lit "  Result: " ++ show_value e.result)
              ∷ id_lines e.thread_id e.request_id))

unfoldable pub model_call_lines : ModelCallEvent → List Str
model_call_lines e =
    (lit "["
      ++ (e.timestamp
          ++ (lit "] MODEL CALL "
              ++ (e.model
                  ++ (lit ": "
                      ++ (status_of e.error
                          ++ (lit " (messages="
                              ++ (itoa e.message_count
                                  ++ (lit " tools="
                                      ++ (itoa e.tool_count
                                          ++ (lit " took " ++ (e.duration ++ lit ")"))))))))))))
    ∷ (error_line e.error ++ id_lines e.thread_id e.request_id)

abbrev pub counted : Str → ℕ → Str
counted name n = name ++ itoa n

unfoldable pub run_summary_lines : RunSummaryEvent → List Str
run_summary_lines e =
    (lit "[RUN SUMMARY] thread="
      ++ (e.thread_id
          ++ (lit " request="
              ++ (e.request_id
                  ++ (lit " duration="
                      ++ (e.duration
                          ++ (counted (lit " iterations=") e.iterations
                              ++ (counted (lit " model_calls=") e.model_calls
                                  ++ (counted (lit " model_errors=") e.model_errors
                                      ++ (counted (lit " tool_calls=") e.tool_calls
                                          ++ (counted (lit " tool_errors=") e.tool_errors
                                              ++ (lit " tool_error_rate="
                                                  ++ (e.percentage ++ lit "%")))))))))))))
    ∷ (if is_empty e.error then [] else (lit "  Error: " ++ e.error) ∷ [])

unfoldable pub simple_lines : (Args → Str) → (Value → Str) → LogEvent → List Str
unfolding tool_call_lines model_call_lines run_summary_lines
simple_lines show_args show_value (tool_call (some e)) = tool_call_lines show_args show_value e
simple_lines show_args show_value (model_call (some e)) = model_call_lines e
simple_lines show_args show_value (run_summary (some e)) = run_summary_lines e
simple_lines show_args show_value (tool_call none) = []
simple_lines show_args show_value (model_call none) = []
simple_lines show_args show_value (run_summary none) = []

-- `ContextLogger`
pub record ContextLogger : Type 0 where
  pub tool_events : List ToolCallEvent
  pub model_events : List ModelCallEvent
  pub run_summaries : List RunSummaryEvent

abbrev pub new_context_logger : ContextLogger
new_context_logger = record { tool_events = []; model_events = []; run_summaries = [] }

unfoldable pub log_in_context : ContextLogger → LogEvent → ContextLogger
log_in_context cl (tool_call (some e)) = record cl { tool_events = cl.tool_events ++ e ∷ [] }
log_in_context cl (model_call (some e)) = record cl { model_events = cl.model_events ++ e ∷ [] }
log_in_context cl (run_summary (some e)) = record cl { run_summaries = cl.run_summaries ++ e ∷ [] }
log_in_context cl (tool_call none) = cl
log_in_context cl (model_call none) = cl
log_in_context cl (run_summary none) = cl

-- The maps of `JSONLogger`: an error changes the level and adds a field.
abbrev pub with_error : Option Str → Fields → Fields
with_error none out = out
with_error (some e) out =
    set (set out (lit "level") (string (lit "error"))) (lit "error") (string e)

abbrev pub args_value : Args → Value
args_value none = nil
args_value (some fs) = object fs

-- What `JSONLogger` has written, line by line, and what its collector was given.
pub record JsonLogger : Type 0 where
  pub out : List Str
  pub has_metrics : Bool
  pub recorded : List LogEvent

-- `emit`
abbrev pub json_line : Result Str → Str
json_line (ok text) = text
json_line (err e) = lit "{\"level\":\"error\",\"error\":\"json marshal failed: " ++ (e ++ lit "\"}")

abbrev pub log_written : (Fields → Result Str) → JsonLogger → LogEvent → Option Fields → JsonLogger
log_written marshal jl event none = jl
log_written marshal jl event (some fs) = record jl {
  out = jl.out ++ json_line (marshal fs) ∷ [];
  recorded = if jl.has_metrics then jl.recorded ++ event ∷ [] else jl.recorded;
}

-- `seconds` reads a duration's number of seconds
module _ (seconds : Str → Value) where
  unfoldable pub tool_call_fields : ToolCallEvent → Fields
  unfolding set
  tool_call_fields e = with_error e.error (
      field (lit "ts") (string e.timestamp) (
        field (lit "level") (string (lit "info")) (
          field (lit "type") (string (lit "tool_call")) (
            field (lit "tool") (string e.tool) (
              field (lit "duration") (seconds e.duration) (
                field (lit "args") (args_value e.args) (
                  field (lit "result") e.result (
                    field (lit "thread") (string e.thread_id)
                      (field (lit "request") (string e.request_id) no_field)))))))))

  unfoldable pub model_call_fields : ModelCallEvent → Fields
  unfolding set
  model_call_fields e = with_error e.error (
      field (lit "ts") (string e.timestamp) (
        field (lit "level") (string (lit "info")) (
          field (lit "type") (string (lit "model_call")) (
            field (lit "model") (string e.model) (
              field (lit "message_count") (int e.message_count) (
                field (lit "tool_count") (int e.tool_count) (
                  field (lit "duration") (seconds e.duration) (
                    field (lit "thread") (string e.thread_id)
                      (field (lit "request") (string e.request_id) no_field)))))))))

  -- with the time of the call
  unfoldable pub run_summary_fields : Str → RunSummaryEvent → Fields
  unfolding set
  run_summary_fields now e = with_error (if is_empty e.error then none else some e.error) (
      field (lit "ts") (string now) (
        field (lit "level") (string (lit "info")) (
          field (lit "type") (string (lit "run_summary")) (
            field (lit "thread") (string e.thread_id) (
              field (lit "request") (string e.request_id) (
                field (lit "duration") (seconds e.duration) (
                  field (lit "iterations") (int e.iterations) (
                    field (lit "model_calls") (int e.model_calls) (
                      field (lit "model_errors") (int e.model_errors) (
                        field (lit "tool_calls") (int e.tool_calls) (
                          field (lit "tool_errors") (int e.tool_errors)
                            (field (lit "tool_error_rate") e.tool_error_rate no_field))))))))))))

  -- The map that is written for an event, if any.
  unfoldable pub logged_fields : Str → LogEvent → Option Fields
  unfolding tool_call_fields model_call_fields run_summary_fields
  logged_fields now (tool_call (some e)) = some (tool_call_fields e)
  logged_fields now (model_call (some e)) = some (model_call_fields e)
  logged_fields now (run_summary (some e)) = some (run_summary_fields now e)
  logged_fields now (tool_call none) = none
  logged_fields now (model_call none) = none
  logged_fields now (run_summary none) = none

  unfoldable pub log_json : (Fields → Result Str) → Str → JsonLogger → LogEvent → JsonLogger
  unfolding logged_fields
  log_json marshal now jl event = log_written marshal jl event (logged_fields now event)
