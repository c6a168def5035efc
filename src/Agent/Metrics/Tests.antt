-- ===== src/Agent/Metrics/Tests.antt =====
-- A registry that is the list of its increments, and the collector on it.
use deepagent.Base.{ℕ, ◌+◌, ◌≡◌, refl, true, Option, none, some, List, [], ◌∷◌, if◌then◌else◌}
use deepagent.Base.Text.{Str, lit, str_eq}
use deepagent.Tools.Value.{Value, int}
use deepagent.Agent.Types.{ok}
use deepagent.Agent.Logging.{ToolCallEvent, LogEvent, tool_call}
use deepagent.Agent.Metrics.{
  Metric, tool_calls, Client, new_prometheus_collector, collect_all, log_each, provider,
  get_prometheus_http_handler, logger_of, json_logger, new_prometheus_collector_stub,
}
use deepagent.Agent.Metrics.Counts.{is_same, CountsUp, number_in, logged-counts}

abbrev Counters : Type 0
Counters = List (Metric × Str × Str)

abbrev added : Metric → List Str → Counters → Counters
added m (a ∷ b ∷ []) w = (m, a, b) ∷ w
added m _ w = w

abbrev client : Client Unit Counters
client = record {
  new_registry = tt;
  must_register = λ r names w. some w;
  inc = λ r m labels w. added m labels w;
  observe = λ r m labels seconds w. w;
}

abbrev value : Metric × Str × Str → Counters → ℕ
value counter [] = 0
value counter (c ∷ w) = if is_same c counter then value counter w + 1 else value counter w

client-CountsUp : CountsUp client tt value
client-CountsUp = record {
  inc = λ m a b counter w. refl;
  observe = λ m labels seconds counter w. refl;
}

abbrev call : Option Str → ToolCallEvent
call e = record {
  tool = lit "ls";
  args = none;
  result = Value.nil;
  error = e;
  duration = lit "1s";
  timestamp = [];
  thread_id = [];
  request_id = [];
}

abbrev three_events : List LogEvent
three_events =
    tool_call (some (call none))
    ∷ tool_call none
    ∷ tool_call (some (call (some (lit "no such directory"))))
    ∷ []

abbrev failed : Metric × Str × Str
failed = (tool_calls, lit "ls", lit "error")

one-failed : number_in failed three_events ≡ 1
unfolding str_eq
one-failed = refl

logged-counts_example :
    value failed (
      collect_all client tt
        (log_each
          (λ d. int 1)
          (λ fs. ok [])
          []
          three_events
          (record { out = []; has_metrics = true; recorded = [] })).recorded
        [])
    ≡ number_in failed three_events + value failed []
logged-counts_example =
    logged-counts client tt value client-CountsUp failed (λ d. int 1) (λ fs. ok []) [] three_events
      []

-- Without a registry there is no handler.
abbrev as_registry : ℕ → Option ℕ
as_registry r = some r

no_handler : get_prometheus_http_handler as_registry as_registry (some (provider none)) ≡ none
unfolding get_prometheus_http_handler
no_handler = refl

new_registry : new_prometheus_collector client none [] ≡ some (tt, [])
unfolding new_prometheus_collector
new_registry = refl

-- Where JSON is asked for and Prometheus is not in the build, the logger has no metrics.
no_metrics :
    logger_of {L = Unit} {A = Unit} {W = ℕ}
      (λ name. lit "true")
      (new_prometheus_collector_stub {R = Unit} none)
      none
      0
    ≡ some (json_logger none, 0)
unfolding logger_of new_prometheus_collector_stub str_eq
no_metrics = refl
