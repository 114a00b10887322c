-- ===== src/Metrics/Catalogue.antt =====
-- The catalogue of metrics (backend/src/metrics/registry.ts): METRIC, METRIC_LABEL and DEFAULT_METRICS.
pub mod Totals
use split_bill_app.Prelude.{ℕ, ◌≡◌, refl, List, [], ◌∷◌, Option, none, some, String}
use split_bill_app.Effects.{
  Metric, users_registered_total, groups_created_total, expenses_created_total,
  expenses_updated_total, expenses_deleted_total, settlements_created_total, queue_failures_total,
  cache_failures_total, background_jobs_succeeded_total, background_jobs_failed_total,
  background_jobs_retried_total, background_jobs_discarded_total,
}
use split_bill_app.Metrics.Table.{Text, codes, find}
use split_bill_app.Metrics.Registry.{
  Doubles, MetricDefinition, counter, histogram, MetricsRegistry, new_registry, register_all,
}

-- METRIC_LABEL
abbrev method_label : Text
method_label = codes "method"

abbrev route_label : Text
route_label = codes "route"

abbrev status_label : Text
status_label = codes "status"

abbrev job_type_label : Text
job_type_label = codes "job_type"

abbrev operation_label : Text
operation_label = codes "operation"

abbrev activity_type_label : Text
activity_type_label = codes "type"

-- METRIC, as far as the services increment the counters.
abbrev pub prometheus_name : Metric → Text
prometheus_name users_registered_total = codes "users_registered_total"
prometheus_name groups_created_total = codes "groups_created_total"
prometheus_name expenses_created_total = codes "expenses_created_total"
prometheus_name expenses_updated_total = codes "expenses_updated_total"
prometheus_name expenses_deleted_total = codes "expenses_deleted_total"
prometheus_name settlements_created_total = codes "settlements_created_total"
prometheus_name queue_failures_total = codes "queue_failures_total"
prometheus_name cache_failures_total = codes "cache_failures_total"
prometheus_name background_jobs_succeeded_total = codes "background_jobs_succeeded_total"
prometheus_name background_jobs_failed_total = codes "background_jobs_failed_total"
prometheus_name background_jobs_retried_total = codes "background_jobs_retried_total"
prometheus_name background_jobs_discarded_total = codes "background_jobs_discarded_total"

abbrev counting : {N : Type 0} → String → String → List Text → MetricDefinition N
counting name help keys = counter (codes name) (codes help) (some keys)

-- A definition without label keys.
abbrev plain_counter : {N : Type 0} → String → String → MetricDefinition N
plain_counter name help = counter (codes name) (codes help) none

-- DEFAULT_METRICS
abbrev pub default_metrics : {N : Type 0} → List (MetricDefinition N)
default_metrics =
    counting "http_requests_total"
      "Total number of HTTP requests handled, by method, normalized route, and status class."
      (method_label ∷ route_label ∷ status_label ∷ [])
    ∷ counting "http_errors_total"
        "Total number of HTTP error responses (status >= 400), by method, route, and status class."
        (method_label ∷ route_label ∷ status_label ∷ [])
    ∷ histogram (codes "http_request_duration_seconds")
        (codes "HTTP request handling time in seconds, by method and normalized route.")
        (some (method_label ∷ route_label ∷ [])) none
    ∷ plain_counter "users_registered_total" "Total number of successfully registered users."
    ∷ plain_counter "groups_created_total" "Total number of successfully created groups."
    ∷ plain_counter "expenses_created_total" "Total number of successfully created expenses."
    ∷ plain_counter "expenses_updated_total" "Total number of successfully updated expenses."
    ∷ plain_counter "expenses_deleted_total" "Total number of successfully deleted expenses."
    ∷ plain_counter "settlements_created_total" "Total number of successfully created settlements."
    ∷ counting "activity_events_created_total"
        "Total number of activity events persisted, by the bounded activity type."
        (activity_type_label ∷ [])
    ∷ counting "background_jobs_succeeded_total"
        "Total number of background jobs processed successfully, by controlled job type."
        (job_type_label ∷ [])
    ∷ counting "background_jobs_failed_total"
        "Total number of background job processing failures (retryable or terminal), by job type."
        (job_type_label ∷ [])
    ∷ counting "background_jobs_retried_total"
        "Total number of failed background jobs scheduled for a retry, by job type."
        (job_type_label ∷ [])
    ∷ counting "background_jobs_discarded_total"
        "Total number of background jobs removed without further processing (permanent failure, retries exhausted, or malformed), by job type."
        (job_type_label ∷ [])
    ∷ plain_counter "redis_connection_errors_total"
        "Total number of Redis connection-level errors observed on the shared client."
    ∷ counting "cache_failures_total"
        "Total number of Redis cache operation failures absorbed by the domain cache, by bounded operation name."
        (operation_label ∷ [])
    ∷ plain_counter "queue_failures_total" "Total number of background job enqueue failures."
    ∷ plain_counter "database_connection_errors_total"
        "Total number of PostgreSQL connection failures at startup."
    ∷ counting "emails_sent_total"
        "Total number of transactional auth emails successfully dispatched, by bounded operation name."
        (operation_label ∷ [])
    ∷ counting "email_send_failures_total"
        "Total number of transactional auth email dispatch failures, by bounded operation name."
        (operation_label ∷ [])
    ∷ []

-- `createSingleton`
unfoldable pub default_registry : {N : Type 0} → Doubles N → MetricsRegistry N
default_registry doubles = register_all doubles default_metrics new_registry
