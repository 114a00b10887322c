-- ===== src/Metrics/Catalogue/Totals.antt =====
-- The counters of the services in the registry: none of their increments is lost.
use split_bill_app.Prelude.{
  ℕ, zero, suc, ◌≡◌, refl, ap, ◌∙◌, inl, inr, List, [], ◌∷◌, Option, none, some, or_else, true,
  if◌then◌else◌, Bool-cases, arith,
}
use split_bill_app.Effects.{
  Metric, users_registered_total, groups_created_total, expenses_created_total,
  expenses_updated_total, expenses_deleted_total, settlements_created_total, queue_failures_total,
  cache_failures_total, background_jobs_succeeded_total, background_jobs_failed_total,
  background_jobs_retried_total, background_jobs_discarded_total,
}
use split_bill_app.Metrics.Table.{Text, Table, find, same_text, same_text-true, same_text_refl}
use split_bill_app.Metrics.Labels.{series_key}
use split_bill_app.Metrics.Registry.{
  Doubles, MetricDefinition, counter, histogram, counter_read, MetricsRegistry, define, increment,
  counter_value,
}
use split_bill_app.Metrics.Registry.Counters.{
  counter_value-increment, counter_value-other, increment_keeps_defs,
}
use split_bill_app.Metrics.Catalogue.{prometheus_name, default_registry}

module _ {N : Type 0} (doubles : Doubles N) where
  -- The metric is a counter of the catalogue.
  record Counted (metric : Metric) : Type 0 where
    name : Text
    help : Text
    keys : Option (List Text)
    found :
        find (prometheus_name metric) (default_registry doubles).defs
        ≡ some (counter name help keys)

  counted : (metric : Metric) → Counted metric
  unfolding define default_registry
  counted users_registered_total = record { name = _; help = _; keys = _; found = refl }
  counted groups_created_total = record { name = _; help = _; keys = _; found = refl }
  counted expenses_created_total = record { name = _; help = _; keys = _; found = refl }
  counted expenses_updated_total = record { name = _; help = _; keys = _; found = refl }
  counted expenses_deleted_total = record { name = _; help = _; keys = _; found = refl }
  counted settlements_created_total = record { name = _; help = _; keys = _; found = refl }
  counted queue_failures_total = record { name = _; help = _; keys = _; found = refl }
  counted cache_failures_total = record { name = _; help = _; keys = _; found = refl }
  counted background_jobs_succeeded_total = record { name = _; help = _; keys = _; found = refl }
  counted background_jobs_failed_total = record { name = _; help = _; keys = _; found = refl }
  counted background_jobs_retried_total = record { name = _; help = _; keys = _; found = refl }
  counted background_jobs_discarded_total = record { name = _; help = _; keys = _; found = refl }

  -- The registry after the increments of a list, the last one first, as `World` keeps it.
  abbrev pub registry_after : (Text → Table Text) → N → List Metric → MetricsRegistry N
  registry_after labels one [] = default_registry doubles
  registry_after labels one (metric ∷ earlier) =
      increment doubles (prometheus_name metric) (labels (prometheus_name metric)) one
        (registry_after labels one earlier)

  -- 0 + one + … + one
  abbrev pub times : ℕ → N → N
  times zero one = doubles.zero_double
  times (suc n) one = doubles.add (times n one) one

  abbrev pub how_often : Text → List Metric → ℕ
  how_often name [] = 0
  how_often name (metric ∷ earlier) =
      if same_text (prometheus_name metric) name
      then suc (how_often name earlier)
      else how_often name earlier

  registry_after-defs :
      (labels : Text → Table Text) (one : N) (metrics : List Metric)
      → (registry_after labels one metrics).defs ≡ (default_registry doubles).defs
  unfolding increment
  registry_after-defs labels one [] = refl
  registry_after-defs labels one (metric ∷ earlier) =
      increment_keeps_defs doubles _ _ _ one (registry_after labels one earlier)
      ∙ registry_after-defs labels one earlier

  no_counters : (default_registry doubles).counters ≡ []
  unfolding define default_registry
  no_counters = refl

  nothing_read :
      (d : Option (MetricDefinition N)) (name : Text) (labels : Table Text)
      (registry : MetricsRegistry N)
      → registry.counters ≡ []
      → counter_read doubles d name labels registry ≡ doubles.zero_double
  nothing_read none name labels registry h = refl
  nothing_read (some (histogram n help keys buckets)) name labels registry h = refl
  nothing_read (some (counter n help keys)) name labels registry h = ground (arith, h)

  nothing_yet :
      (metric : Metric) (labels : Table Text)
      → counter_value doubles (prometheus_name metric) labels (default_registry doubles)
        ≡ doubles.zero_double
  unfolding counter_value
  nothing_yet metric labels = nothing_read _ _ labels (default_registry doubles) no_counters

  -- The counter of a metric in the registry is the number of its increments in the list that `World`
  -- keeps, added up: `times n one` is 0 + one + … + one. It is assumed that `one` is positive and
  -- that the labels of an increment depend on the name of the metric only.
  pub counter_value-registry_after :
      (labels : Text → Table Text) (one : N) (metrics : List Metric) (metric : Metric)
      → doubles.lt doubles.zero_double one ≡ true
      → counter_value doubles
          (prometheus_name metric)
          (labels (prometheus_name metric))
          (registry_after labels one metrics)
        ≡ times (how_often (prometheus_name metric) metrics) one
  counter_value-registry_after labels one [] metric positive = nothing_yet metric _
  counter_value-registry_after labels one (m ∷ earlier) metric positive =
      let before = registry_after labels one earlier in
      let already = counter_value-registry_after labels one earlier metric positive in
      elim (Bool-cases (same_text (prometheus_name m) (prometheus_name metric))) [
        | inr other ↦ ground (
          arith,
          counter_value-other doubles before (prometheus_name m) (prometheus_name metric)
              (labels (prometheus_name m)) (labels (prometheus_name metric)) one other,
          already,
        )
        | inl same ↦
            let e = same_text-true (prometheus_name m) (prometheus_name metric) same in
            let c = counted metric in
            let defined =
              ap (find (prometheus_name metric)) (registry_after-defs labels one earlier)
              ∙ c.found in
            let mine =
              same_text_refl (series_key (or_else c.keys []) (labels (prometheus_name metric))) in
            let added =
              counter_value-increment doubles before c.name c.help c.keys (prometheus_name metric)
                (labels (prometheus_name metric)) one (labels (prometheus_name metric)) defined
                positive in
            rw (same, e) (ground (arith, added, mine, already))
      ]
