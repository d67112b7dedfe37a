-- ===== src/Metrics.antt =====
-- metrics/provider.go: the metrics, and what each method of the provider asks of Prometheus. The
-- observed durations are left out.
pub mod Labels
pub mod Server
use mattermost_mattermod.Base.{String, List, [], ◌∷◌}

-- The options of a metric, and the names of its labels.
pub record Desc : Type 0 where
  pub namespace : String
  pub subsystem : String
  pub name : String
  pub labels : List String

abbrev metrics_namespace : String
metrics_namespace = "mattermod"

abbrev http_namespace : String
http_namespace = "requests"

abbrev cron_namespace : String
cron_namespace = "cron"

abbrev github_namespace : String
github_namespace = "github"

abbrev metric : String → String → List String → Desc
metric subsystem name labels = record {
  namespace = metrics_namespace;
  subsystem = subsystem;
  name = name;
  labels = labels;
}

abbrev pub http_requests_duration : Desc
http_requests_duration =
    metric http_namespace "requests" ("method" ∷ "handler" ∷ "status_code" ∷ [])

abbrev pub webhook_events : Desc
webhook_events = metric http_namespace "webhook_requests" ("type" ∷ [])

abbrev pub webhook_errors : Desc
webhook_errors = metric http_namespace "webhook_errors" ("type" ∷ [])

abbrev pub cron_tasks_duration : Desc
cron_tasks_duration = metric cron_namespace "tasks" ("name" ∷ [])

abbrev pub cron_tasks_errors : Desc
cron_tasks_errors = metric cron_namespace "errors" ("name" ∷ [])

abbrev pub github_requests : Desc
github_requests = metric github_namespace "requests" ("method" ∷ "handler" ∷ "status_code" ∷ [])

abbrev pub github_cache_hits : Desc
github_cache_hits = metric github_namespace "cache_hits" ("method" ∷ "handler" ∷ [])

abbrev pub github_cache_misses : Desc
github_cache_misses = metric github_namespace "cache_miss" ("method" ∷ "handler" ∷ [])

abbrev pub rate_limiter_errors : Desc
rate_limiter_errors = metric http_namespace "rate_limit_errors" []

-- The program's own metrics that NewPrometheusProvider registers. Left out are the collectors of the
-- process and of Go, which it registers first.
abbrev pub registered : List Desc
registered =
    http_requests_duration ∷ webhook_events ∷ webhook_errors ∷ cron_tasks_duration
    ∷ cron_tasks_errors ∷ github_requests ∷ github_cache_hits ∷ github_cache_misses
    ∷ rate_limiter_errors ∷ []

-- A call of the interface MetricsProvider, with its arguments in their order.
pub data Call : Type 0 where
  observe_http_request_duration : String → String → String → Call
  increase_webhook_request : String → Call
  increase_webhook_errors : String → Call
  observe_github_request_duration : String → String → String → Call
  increase_github_cache_hits : String → String → Call
  increase_github_cache_misses : String → String → Call
  increase_rate_limiter_errors : Call
  observe_cron_task_duration : String → Call
  increase_cron_task_errors : String → Call

-- What is asked of Prometheus: With on the metric, WithLabelValues, or the metric itself.
pub data Sample : Type 0 where
  labelled : Desc → List (String × String) → Sample
  valued : Desc → List String → Sample
  unlabelled : Desc → Sample

-- The methods of PrometheusProvider.
unfoldable pub provider : Call → Sample
provider (observe_http_request_duration handler method status_code) =
    labelled http_requests_duration
      (("method", method) ∷ ("handler", handler) ∷ ("status_code", status_code) ∷ [])
provider (increase_webhook_request name) = valued webhook_events (name ∷ [])
provider (increase_webhook_errors name) = valued webhook_errors (name ∷ [])
provider (observe_github_request_duration handler method status_code) =
    labelled github_requests
      (("method", method) ∷ ("handler", handler) ∷ ("status_code", status_code) ∷ [])
provider (increase_github_cache_hits method handler) =
    valued github_cache_hits (method ∷ handler ∷ [])
provider (increase_github_cache_misses method handler) =
    valued github_cache_misses (method ∷ handler ∷ [])
provider increase_rate_limiter_errors = unlabelled rate_limiter_errors
provider (observe_cron_task_duration name) = labelled cron_tasks_duration (("name", name) ∷ [])
provider (increase_cron_task_errors name) = valued cron_tasks_errors (name ∷ [])
