-- ===== src/Agent/Metrics.antt =====
-- agent/metrics_prometheus.go, metrics_helpers.go and metrics_http_prometheus.go with their stubs: the
-- collector of metrics, and the logger that agent/graph.go takes by default. The Prometheus client is a record of functions of the world.
pub mod Counts
mod Tests
use deepagent.Base.{Bool, true, false, Option, none, some, List, [], ◌∷◌, ◌++◌, map, if◌then◌else◌}
use deepagent.Base.Text.{Str, lit, str_eq}
use deepagent.Agent.Types.{Result}
use deepagent.Tools.Value.{Fields, Value}
use deepagent.Agent.Logging.{
  ToolCallEvent, ModelCallEvent, RunSummaryEvent, LogEvent, tool_call, model_call, run_summary,
  JsonLogger, log_json,
}

-- The vectors of the collector, by their names.
pub data Metric : Type 0 where
  tool_calls tool_durations model_calls model_durations run_duration : Metric

abbrev pub name_of : Metric → Str
name_of tool_calls = lit "deepagent_tool_calls_total"
name_of tool_durations = lit "deepagent_tool_call_duration_seconds"
name_of model_calls = lit "deepagent_model_calls_total"
name_of model_durations = lit "deepagent_model_call_duration_seconds"
name_of run_duration = lit "deepagent_run_duration_seconds"

-- A registry `R` with `MustRegister` (`none` is its panic), and on what is registered
-- `WithLabelValues(…).Inc()` and `WithLabelValues(…).Observe(…)` of a duration.
pub record Client (R W : Type 0) : Type 0 where
  pub new_registry : R
  pub must_register : R → List Str → W → Option W
  pub inc : R → Metric → List Str → W → W
  pub observe : R → Metric → List Str → Str → W → W

module _ {R W : Type 0} (client : Client R W) where
  abbrev pub registered : R → Option W → Option (R × W)
  registered r none = none
  registered r (some w) = some (r, w)

  abbrev pub registry_or_new : Option R → R
  registry_or_new none = client.new_registry
  registry_or_new (some r) = r

  -- `NewPrometheusCollector`: the collector is its registry
  unfoldable pub new_prometheus_collector : Option R → W → Option (R × W)
  new_prometheus_collector given w =
      let r = registry_or_new given in
      registered r (
        client.must_register r
          (map name_of
            (tool_calls ∷ tool_durations ∷ model_calls ∷ model_durations ∷ run_duration ∷ []))
          w)

  abbrev pub result_of : Option Str → Str
  result_of none = lit "ok"
  result_of (some e) = lit "error"

  module _ (r : R) where
    unfoldable pub record_tool_call : Option ToolCallEvent → W → W
    record_tool_call none w = w
    record_tool_call (some e) w =
        client.observe r tool_durations (e.tool ∷ []) e.duration
          (client.inc r tool_calls (e.tool ∷ result_of e.error ∷ []) w)

    unfoldable pub record_model_call : Option ModelCallEvent → W → W
    record_model_call none w = w
    record_model_call (some e) w =
        client.observe r model_durations (e.model ∷ []) e.duration
          (client.inc r model_calls (e.model ∷ result_of e.error ∷ []) w)

    unfoldable pub record_run_summary : Option RunSummaryEvent → W → W
    record_run_summary none w = w
    record_run_summary (some e) w = client.observe r run_duration [] e.duration w

    -- what the collector does with an event of the logger, and with several
    unfoldable pub collect : LogEvent → W → W
    unfolding record_tool_call record_model_call record_run_summary
    collect (tool_call e) w = record_tool_call e w
    collect (model_call e) w = record_model_call e w
    collect (run_summary e) w = record_run_summary e w

    unfoldable pub collect_all : List LogEvent → W → W
    unfolding collect
    collect_all [] w = w
    collect_all (e ∷ es) w = collect_all es (collect e w)

-- Several events in a JSON logger.
unfoldable pub log_each :
    (seconds : Str → Value) (marshal : Fields → Result Str) (now : Str)
    → List LogEvent
    → JsonLogger
    → JsonLogger
unfolding log_json
log_each seconds marshal now [] jl = jl
log_each seconds marshal now (e ∷ es) jl =
    log_each seconds marshal now es (log_json seconds marshal now jl e)

-- A `MetricsCollector`, which may be a `MetricsProvider` with a handle `A`, or nil.
pub data MetricsCollector (A : Type 0) : Type 0 where
  plain : MetricsCollector A
  provider : Option A → MetricsCollector A

module _ {A : Type 0} where
  -- `GetPrometheusRegistry`
  unfoldable pub get_prometheus_registry : Option (MetricsCollector A) → Option A
  get_prometheus_registry none = none
  get_prometheus_registry (some plain) = none
  get_prometheus_registry (some (provider handle)) = handle

  module _ {R H : Type 0} (as_registry : A → Option R) (handler_for : R → H) where
    abbrev pub asserted : Option A → Option R
    asserted none = none
    asserted (some handle) = as_registry handle

    abbrev pub handler_of : Option R → Option H
    handler_of none = none
    handler_of (some r) = some (handler_for r)

    -- `GetPrometheusHTTPHandler`, with `promhttp.HandlerFor` and the handle's type assertion, where
    -- `none` is a handle that is not a registry or a nil one
    unfoldable pub get_prometheus_http_handler : Option (MetricsCollector A) → Option H
    unfolding get_prometheus_registry
    get_prometheus_http_handler metrics = handler_of (asserted (get_prometheus_registry metrics))

    -- and in a build without Prometheus
    unfoldable pub get_prometheus_http_handler_stub : Option (MetricsCollector A) → Option H
    get_prometheus_http_handler_stub metrics = none

-- `NewPrometheusCollector` in a build without Prometheus
unfoldable pub new_prometheus_collector_stub :
    {R W A : Type 0} → Option R → W → Option (Option (MetricsCollector A) × W)
new_prometheus_collector_stub given w = some (none, w)

-- The loggers of `buildGraph`: one that is given, or one of the two of the package.
pub data GraphLogger (L A : Type 0) : Type 0 where
  given_logger : L → GraphLogger L A
  json_logger : Option (MetricsCollector A) → GraphLogger L A
  simple_logger : GraphLogger L A

-- What `buildGraph` makes where no logger is given; `none` is a panic of the registration.
module _ {L A W : Type 0} (env : Str → Str)
    (new_collector : W → Option (Option (MetricsCollector A) × W)) where
  abbrev pub json_with : Option (Option (MetricsCollector A) × W) → Option (GraphLogger L A × W)
  json_with none = none
  json_with (some (metrics, w)) = some (json_logger metrics, w)

  unfoldable pub default_logger : W → Option (GraphLogger L A × W)
  default_logger w =
      if str_eq (env (lit "DEEPAGENT_JSON_LOG")) (lit "true")
      then (if str_eq (env (lit "DEEPAGENT_PROMETHEUS")) (lit "true")
          then json_with (new_collector w)
          else some (json_logger none, w))
      else some (simple_logger, w)

  unfoldable pub logger_of : Option L → W → Option (GraphLogger L A × W)
  unfolding default_logger
  logger_of (some given) w = some (given_logger given, w)
  logger_of none w = default_logger w
