-- ===== src/Metrics/Tests.antt =====
-- A registry whose doubles are the natural numbers: series with two labels, and a histogram.
use split_bill_app.Prelude.{ℕ, ◌+◌, ◌≡◌, refl, [], ◌∷◌, some, true, ltb, leb, arith}
use split_bill_app.Metrics.Table.{Text, Table, codes}
use split_bill_app.Metrics.Labels.{series_key, escape_label_value}
use split_bill_app.Metrics.Registry.{
  Doubles, counter, MetricsRegistry, new_registry, define, increment, counter_value,
}
use split_bill_app.Metrics.Registry.Counters.{counter_value-increment, increment_separates}
use split_bill_app.Effects.{expenses_created_total, users_registered_total}
use split_bill_app.Metrics.Catalogue.{prometheus_name}
use split_bill_app.Metrics.Catalogue.Totals.{registry_after, counter_value-registry_after}
use split_bill_app.Metrics.Registry.Buckets.{bucket_lines-observed, observed}
use split_bill_app.Metrics.Render.{Printing, bucket_line, bucket_lines, render_prometheus}

abbrev whole : Doubles ℕ
whole = record {
  zero_double = 0;
  add = λ a b. a + b;
  lt = ltb;
  le = leb;
  is_finite = λ a. true;
  default_buckets = 1 ∷ 5 ∷ 10 ∷ [];
}

-- A number is printed as one code unit.
abbrev plain : Printing ℕ
plain = record {
  text_of = λ a. (48 + a) ∷ [];
  rounded = λ a. a;
  is_integer = λ a. true;
  text_of_count = λ a. (48 + a) ∷ [];
}

abbrev failures : Text
failures = codes "cache_failures_total"

abbrev operation : Text
operation = codes "operation"

abbrev registry : MetricsRegistry ℕ
registry = define whole (counter failures (codes "Failures.") (some (operation ∷ []))) new_registry

abbrev get : Table Text
get = (operation, codes "get") ∷ []

-- A value that tries to close its quotes.
abbrev sly : Table Text
sly = (operation, codes "get\"") ∷ []

counter_value-increment_example :
    counter_value whole failures get (increment whole failures get 1 registry) ≡ 1
unfolding define series_key escape_label_value counter_value
counter_value-increment_example =
    counter_value-increment whole registry failures (codes "Failures.") (some (operation ∷ []))
      failures get 1 get refl refl

increment_separates_example :
    counter_value whole failures sly (increment whole failures get 1 registry)
    ≡ counter_value whole failures sly registry
unfolding define
increment_separates_example =
    increment_separates whole registry failures (codes "Failures.") (operation ∷ []) failures
      operation get sly 1 refl refl (refl, tt) refl (λ q. ground arith)

leb_trans : (a b c : ℕ) → leb a b ≡ true → leb b c ≡ true → leb a c ≡ true
leb_trans a b c h k = ground arith

bucket_lines-observed_example :
    (bucket_lines whole plain failures [] 0
        (1 ∷ 5 ∷ [])
        (observed whole (1 ∷ 5 ∷ []) (3 ∷ 1 ∷ 9 ∷ [])).counts
      ≡ bucket_line whole plain failures [] 1 1 ∷ bucket_line whole plain failures [] 5 2 ∷ [])
    × ((observed whole (1 ∷ 5 ∷ []) (3 ∷ 1 ∷ 9 ∷ [])).count ≡ 3)
bucket_lines-observed_example =
    bucket_lines-observed whole plain failures [] (1 ∷ 5 ∷ []) (3 ∷ 1 ∷ 9 ∷ []) leb_trans
      ((refl, tt), (tt, tt))

-- The text of the registry: the help, the type, and the one series with its value.
abbrev expected : Text
expected =
    codes
      "# HELP cache_failures_total Failures.\n# TYPE cache_failures_total counter\ncache_failures_total{operation=\"get\"} 1\n"

rendered : render_prometheus whole plain (increment whole failures get 1 registry) ≡ expected
unfolding define increment render_prometheus series_key escape_label_value
rendered = refl

counter_value-registry_after_example :
    counter_value whole (prometheus_name expenses_created_total) [] (
      registry_after whole
        (λ name. [])
        1
        (expenses_created_total ∷ users_registered_total ∷ expenses_created_total ∷ []))
    ≡ 2
counter_value-registry_after_example =
    counter_value-registry_after whole (λ name. []) 1
      (expenses_created_total ∷ users_registered_total ∷ expenses_created_total ∷ [])
      expenses_created_total refl
