-- ===== src/Metrics/Registry.antt =====
-- `MetricsRegistry` (backend/src/metrics/registry.ts). The doubles that it adds and compares are a
-- parameter; a count of observations is a natural number.
pub mod Counters
pub mod Buckets
use split_bill_app.Prelude.{
  ℕ, suc, List, [], ◌∷◌, map, Option, none, some, or_else, Bool, true, false, not, ◌&&◌, ◌||◌,
  if◌then◌else◌,
}
use split_bill_app.Metrics.Table.{Text, Table, find, put}
use split_bill_app.Metrics.Labels.{valid_name, series_key}

-- The `number`s of JavaScript: 0, `+`, `<`, `<=` and `Number.isFinite`, and the literals of
-- DEFAULT_HISTOGRAM_BUCKETS.
pub record Doubles (N : Type 0) : Type 0 where
  pub zero_double : N
  pub add : N → N → N
  pub lt : N → N → Bool
  pub le : N → N → Bool
  pub is_finite : N → Bool
  pub default_buckets : List N

pub data MetricDefinition (N : Type 0) : Type 0 where
  counter : (name help : Text) → Option (List Text) → MetricDefinition N
  histogram : (name help : Text) → Option (List Text) → Option (List N) → MetricDefinition N

pub record HistogramSeries (N : Type 0) : Type 0 where
  pub counts : List ℕ
  pub count : ℕ
  pub sum : N

pub record MetricsRegistry (N : Type 0) : Type 0 where
  pub defs : Table (MetricDefinition N)
  pub counters : Table (Table N)
  pub histograms : Table (Table (HistogramSeries N))

abbrev pub new_registry : {N : Type 0} → MetricsRegistry N
new_registry = record { defs = []; counters = []; histograms = [] }

abbrev pub name_of : {N : Type 0} → MetricDefinition N → Text
name_of (counter name help label_keys) = name
name_of (histogram name help label_keys buckets) = name

abbrev pub label_keys_of : {N : Type 0} → MetricDefinition N → List Text
label_keys_of (counter name help label_keys) = or_else label_keys []
label_keys_of (histogram name help label_keys buckets) = or_else label_keys []

abbrev pub all_valid : List Text → Bool
all_valid [] = true
all_valid (key ∷ keys) = valid_name key && all_valid keys

abbrev pub is_valid_definition : {N : Type 0} → MetricDefinition N → Bool
is_valid_definition def = valid_name (name_of def) && all_valid (label_keys_of def)

module _ {N : Type 0} (doubles : Doubles N) where
  open doubles use {zero_double, add, lt, le, is_finite, default_buckets}

  -- `def.buckets && def.buckets.length > 0 ? [...def.buckets] : DEFAULT_BUCKETS`
  abbrev pub buckets_or_default : Option (List N) → List N
  buckets_or_default none = default_buckets
  buckets_or_default (some []) = default_buckets
  buckets_or_default (some (b ∷ bs)) = b ∷ bs

  -- `defineCounter` and `defineHistogram`: the definition with its defaults.
  abbrev pub with_defaults : MetricDefinition N → MetricDefinition N
  with_defaults (counter name help label_keys) = counter name help (some (or_else label_keys []))
  with_defaults (histogram name help label_keys buckets) =
      histogram name help (some (or_else label_keys [])) (some (buckets_or_default buckets))

  unfoldable pub define : MetricDefinition N → MetricsRegistry N → MetricsRegistry N
  define def registry =
      if is_valid_definition def
      then record registry { defs = put (name_of def) (with_defaults def) registry.defs }
      else registry

  -- `registerDefaultMetrics`
  abbrev pub register_all : List (MetricDefinition N) → MetricsRegistry N → MetricsRegistry N
  register_all [] registry = registry
  register_all (def ∷ rest) registry = register_all rest (define def registry)

  -- A series of `name`, if there is a metric of that name and there are any series.
  abbrev pub series_of : {V : Type 0} → Text → Table (Table V) → Table V
  series_of name tables = or_else (find name tables) []

  abbrev pub add_to : Text → N → Table N → Table N
  add_to key by series = put key (add (or_else (find key series) zero_double) by) series

  abbrev pub increment_defined :
      Option (MetricDefinition N) → Text → Table Text → N → MetricsRegistry N → MetricsRegistry N
  increment_defined none name labels by registry = registry
  increment_defined (some (histogram n h keys buckets)) name labels by registry = registry
  increment_defined (some (counter n h keys)) name labels by registry =
      if not (lt zero_double by) then registry else record registry {
        counters =
            put name
              (add_to (series_key (or_else keys []) labels) by (series_of name registry.counters))
              registry.counters;
      }

  unfoldable pub increment : Text → Table Text → N → MetricsRegistry N → MetricsRegistry N
  increment name labels by registry =
      increment_defined (find name registry.defs) name labels by registry

  -- The loop that counts the value in its smallest bucket. A place that is missing reads as 0.
  abbrev pub bump : N → List N → List ℕ → List ℕ
  bump value [] counts = counts
  bump value (b ∷ bs) [] = if le value b then 1 ∷ [] else 0 ∷ bump value bs []
  bump value (b ∷ bs) (c ∷ cs) = if le value b then suc c ∷ cs else c ∷ bump value bs cs

  abbrev pub empty_series : List N → HistogramSeries N
  empty_series buckets = record { counts = map (λ _. 0) buckets; count = 0; sum = zero_double }

  abbrev pub record_value : List N → N → HistogramSeries N → HistogramSeries N
  record_value buckets value current = record {
    counts = bump value buckets current.counts;
    count = suc current.count;
    sum = add current.sum value;
  }

  abbrev pub observe_in : List N → Text → N → Table (HistogramSeries N) → Table (HistogramSeries N)
  observe_in buckets key value series =
      put key (record_value buckets value (or_else (find key series) (empty_series buckets))) series

  abbrev pub observe_defined :
      Option (MetricDefinition N) → Text → N → Table Text → MetricsRegistry N → MetricsRegistry N
  observe_defined none name value labels registry = registry
  observe_defined (some (counter n h keys)) name value labels registry = registry
  observe_defined (some (histogram n h keys buckets)) name value labels registry =
      if not (is_finite value) || lt value zero_double then registry else record registry {
        histograms =
            put name
              (observe_in (or_else buckets default_buckets) (series_key (or_else keys []) labels)
                value (series_of name registry.histograms))
              registry.histograms;
      }

  unfoldable pub observe : Text → N → Table Text → MetricsRegistry N → MetricsRegistry N
  observe name value labels registry =
      observe_defined (find name registry.defs) name value labels registry

  abbrev pub counter_read : Option (MetricDefinition N) → Text → Table Text → MetricsRegistry N → N
  counter_read none name labels registry = zero_double
  counter_read (some (histogram n h keys buckets)) name labels registry = zero_double
  counter_read (some (counter n h keys)) name labels registry =
      or_else (find (series_key (or_else keys []) labels) (series_of name registry.counters))
        zero_double

  unfoldable pub counter_value : Text → Table Text → MetricsRegistry N → N
  counter_value name labels registry = counter_read (find name registry.defs) name labels registry

  -- The series that `histogramCount` and `histogramSum` read.
  abbrev pub histogram_read :
      Option (MetricDefinition N)
      → Text
      → Table Text
      → MetricsRegistry N
      → Option (HistogramSeries N)
  histogram_read none name labels registry = none
  histogram_read (some (counter n h keys)) name labels registry = none
  histogram_read (some (histogram n h keys buckets)) name labels registry =
      find (series_key (or_else keys []) labels) (series_of name registry.histograms)

  abbrev pub count_in : Option (HistogramSeries N) → ℕ
  count_in none = 0
  count_in (some entry) = entry.count

  abbrev pub sum_in : Option (HistogramSeries N) → N
  sum_in none = zero_double
  sum_in (some entry) = entry.sum

  abbrev pub histogram_series : Text → Table Text → MetricsRegistry N → Option (HistogramSeries N)
  histogram_series name labels registry =
      histogram_read (find name registry.defs) name labels registry

  unfoldable pub histogram_count : Text → Table Text → MetricsRegistry N → ℕ
  histogram_count name labels registry = count_in (histogram_series name labels registry)

  unfoldable pub histogram_sum : Text → Table Text → MetricsRegistry N → N
  histogram_sum name labels registry = sum_in (histogram_series name labels registry)

  unfoldable pub reset : MetricsRegistry N → MetricsRegistry N
  reset registry = record registry { counters = []; histograms = [] }
