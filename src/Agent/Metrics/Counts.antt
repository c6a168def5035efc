-- ===== src/Agent/Metrics/Counts.antt =====
-- agent/metrics_prometheus.go with agent/json_logger.go: what the counters count.
use deepagent.Base.{
  ℕ, ◌+◌, ◌≡◌, refl, sym, ◌∙◌, arith, Bool, true, false, ◌&&◌, Option, none, some, List, [], ◌∷◌,
  ◌++◌, if◌then◌else◌,
}
use deepagent.Base.Text.{Str, lit, str_eq}
use deepagent.Tools.Value.{Fields, Value}
use deepagent.Agent.Types.{Result}
use deepagent.Agent.Logging.{LogEvent, tool_call, model_call, run_summary, JsonLogger, log_json}
use deepagent.Agent.Metrics.{
  Metric, name_of, tool_calls, model_calls, run_duration, Client, result_of, collect, collect_all,
  log_each,
}

-- The same counter at the same labels.
abbrev pub is_same : Metric × Str × Str → Metric × Str × Str → Bool
is_same (m, a, b) (m', a', b') = str_eq (name_of m) (name_of m') && (str_eq a a' && str_eq b b')

-- What is used of the counters: an increment adds one to the counter at its labels and leaves the
-- others, and what is observed in a histogram leaves them all.
pub record CountsUp {R W : Type 0} (client : Client R W) (r : R)
    (value : Metric × Str × Str → W → ℕ) : Type 0 where
  pub inc :
      (m : Metric) (a b : Str) (counter : Metric × Str × Str) (w : W)
      → value counter (client.inc r m (a ∷ b ∷ []) w)
        ≡ (if is_same (m, a, b) counter then value counter w + 1 else value counter w)
  pub observe :
      (m : Metric) (labels : List Str) (seconds : Str) (counter : Metric × Str × Str) (w : W)
      → value counter (client.observe r m labels seconds w) ≡ value counter w

abbrev pub outcome_of : Option Str → Str
outcome_of none = lit "ok"
outcome_of (some e) = lit "error"

-- The counter that an event is counted in.
abbrev pub counter_of : LogEvent → Option (Metric × Str × Str)
counter_of (tool_call (some e)) = some (tool_calls, e.tool, outcome_of e.error)
counter_of (model_call (some e)) = some (model_calls, e.model, outcome_of e.error)
counter_of _ = none

abbrev pub is_counted : Metric × Str × Str → Option (Metric × Str × Str) → Bool
is_counted counter none = false
is_counted counter (some c) = is_same c counter

-- The number of events that are counted in a counter.
abbrev pub number_in : Metric × Str × Str → List LogEvent → ℕ
number_in counter [] = 0
number_in counter (e ∷ es) =
    (if is_counted counter (counter_of e) then 1 else 0) + number_in counter es

add-if : (b : Bool) (n : ℕ) → (if b then n + 1 else n) ≡ (if b then 1 else 0) + n
add-if true n = omega arith
add-if false n = omega arith

number_in-append :
    (counter : Metric × Str × Str) (xs ys : List LogEvent)
    → number_in counter (xs ++ ys) ≡ number_in counter xs + number_in counter ys
number_in-append counter [] ys = omega arith
number_in-append counter (x ∷ xs) ys = omega (arith, number_in-append counter xs ys)

module _ (seconds : Str → Value) (marshal : Fields → Result Str) (now : Str)
    (counter : Metric × Str × Str) where
  -- An event that is logged is given to the collector, and a nil event counts in no counter.
  log_json-recorded :
      (jl : JsonLogger) (e : LogEvent)
      → jl.has_metrics ≡ true
      → (number_in counter (log_json seconds marshal now jl e).recorded
          ≡ number_in counter jl.recorded + (if is_counted counter (counter_of e) then 1 else 0))
        × ((log_json seconds marshal now jl e).has_metrics ≡ true)
  unfolding log_json
  log_json-recorded jl (tool_call none) h = (omega arith, h)
  log_json-recorded jl (model_call none) h = (omega arith, h)
  log_json-recorded jl (run_summary none) h = (omega arith, h)
  log_json-recorded jl (tool_call (some e)) h =
      rw h (omega (arith, number_in-append counter jl.recorded (tool_call (some e) ∷ [])), refl)
  log_json-recorded jl (model_call (some e)) h =
      rw h (omega (arith, number_in-append counter jl.recorded (model_call (some e) ∷ [])), refl)
  log_json-recorded jl (run_summary (some e)) h =
      rw h (omega (arith, number_in-append counter jl.recorded (run_summary (some e) ∷ [])), refl)

  log_each-recorded :
      (es : List LogEvent) (jl : JsonLogger)
      → jl.has_metrics ≡ true
      → number_in counter (log_each seconds marshal now es jl).recorded
        ≡ number_in counter jl.recorded + number_in counter es
  unfolding log_each
  log_each-recorded [] jl h = omega arith
  log_each-recorded (e ∷ es) jl h =
      let (this, still) = log_json-recorded jl e h in
      omega (arith, this, log_each-recorded es (log_json seconds marshal now jl e) still)

module _ {R W : Type 0} (client : Client R W) (r : R) (value : Metric × Str × Str → W → ℕ)
    (law : CountsUp client r value) (counter : Metric × Str × Str) where
  inc-observe :
      (m m' : Metric) (a b : Str) (labels : List Str) (seconds : Str) (w : W)
      → value counter (client.observe r m' labels seconds (client.inc r m (a ∷ b ∷ []) w))
        ≡ (if is_same (m, a, b) counter then 1 else 0) + value counter w
  inc-observe m m' a b labels seconds w =
      let seen = law.observe m' labels seconds counter (client.inc r m (a ∷ b ∷ []) w) in
      let added = law.inc m a b counter w in
      seen ∙ added ∙ add-if (is_same (m, a, b) counter) (value counter w)

  result_of-outcome_of : (e : Option Str) → result_of client e ≡ outcome_of e
  result_of-outcome_of none = refl
  result_of-outcome_of (some e) = refl

  collect-counts :
      (e : LogEvent) (w : W)
      → value counter (collect client r e w)
        ≡ (if is_counted counter (counter_of e) then 1 else 0) + value counter w
  unfolding collect
  collect-counts (tool_call none) w = omega arith
  collect-counts (model_call none) w = omega arith
  collect-counts (run_summary none) w = omega arith
  collect-counts (tool_call (some e)) w =
      rw (sym (result_of-outcome_of e.error)) (inc-observe _ _ _ _ _ _ w)
  collect-counts (model_call (some e)) w =
      rw (sym (result_of-outcome_of e.error)) (inc-observe _ _ _ _ _ _ w)
  collect-counts (run_summary (some e)) w =
      law.observe run_duration [] e.duration counter w ∙ omega arith

  collect_all-counts :
      (es : List LogEvent) (w : W)
      → value counter (collect_all client r es w) ≡ number_in counter es + value counter w
  unfolding collect_all
  collect_all-counts [] w = omega arith
  collect_all-counts (e ∷ es) w =
      omega (arith, collect_all-counts es (collect client r e w), collect-counts e w)

  -- With a collector on a registry that counts, after any events are logged by a new JSON logger
  -- each counter has grown by the number of the events with its tool or model and its outcome: nil
  -- events are passed over, and no event is counted twice.
  pub logged-counts :
      (seconds : Str → Value) (marshal : Fields → Result Str) (now : Str) (es : List LogEvent)
      (w : W)
      → value counter (
          collect_all client r
            (log_each seconds marshal now es
              (record { out = []; has_metrics = true; recorded = [] })).recorded
            w)
        ≡ number_in counter es + value counter w
  logged-counts seconds marshal now es w =
      let jl : JsonLogger = record { out = []; has_metrics = true; recorded = [] } in
      omega (
        arith,
        collect_all-counts (log_each seconds marshal now es jl).recorded w,
        log_each-recorded seconds marshal now counter es jl refl,
      )
