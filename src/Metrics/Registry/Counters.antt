-- ===== src/Metrics/Registry/Counters.antt =====
-- Increments of counters and what is read back.
use split_bill_app.Prelude.{
  ◌≡◌, ◌≢◌, refl, ap, ◌∙◌, inl, inr, List, [], Option, none, some, or_else, true, false,
  if◌then◌else◌, Bool-cases, arith,
}
use split_bill_app.Metrics.Table.{
  Text, Table, find, put, find-put, same_text, same_text_refl, same_text-true,
}
use split_bill_app.Metrics.Labels.{series_key}
use split_bill_app.Metrics.Labels.Keys.{ValidNames, has, series_key-inj}
use split_bill_app.Metrics.Registry.{
  Doubles, MetricDefinition, counter, histogram, MetricsRegistry, increment, increment_defined,
  counter_value, counter_read, add_to, series_of,
}

module _ {N : Type 0} (doubles : Doubles N) where
  open doubles use {zero_double, add, lt}

  find-add_to :
      (key key' : Text) (by : N) (series : Table N)
      → or_else (find key' (add_to doubles key by series)) zero_double ≡ (
          if same_text key key'
          then add (or_else (find key series) zero_double) by
          else or_else (find key' series) zero_double)
  find-add_to key key' by series =
      let put_there = find-put key key' (add (or_else (find key series) zero_double) by) series in
      elim (Bool-cases (same_text key key')) [
        | inl same ↦ ground (arith, put_there)
        | inr differ ↦ ground (arith, put_there)
      ]

  series_of-put :
      (name other : Text) (series : Table N) (tables : Table (Table N))
      → series_of doubles other (put name series tables)
        ≡ (if same_text name other then series else series_of doubles other tables)
  series_of-put name other series tables =
      let put_there = find-put name other series tables in
      elim (Bool-cases (same_text name other)) [
        | inl same ↦ ground (arith, put_there)
        | inr differ ↦ ground (arith, put_there)
      ]

  -- A positive increment of a defined counter adds to the series of its labels, and to no other
  -- series of that counter.
  pub counter_value-increment :
      (registry : MetricsRegistry N) (n help : Text) (keys : Option (List Text)) (name : Text)
      (labels : Table Text) (by : N) (labels' : Table Text)
      → find name registry.defs ≡ some (counter n help keys)
      → lt zero_double by ≡ true
      → counter_value doubles name labels' (increment doubles name labels by registry) ≡ (
          if same_text (series_key (or_else keys []) labels) (series_key (or_else keys []) labels')
          then add (counter_value doubles name labels registry) by
          else counter_value doubles name labels' registry)
  unfolding increment counter_value
  counter_value-increment registry n help keys name labels by labels' defined positive =
      let key = series_key (or_else keys []) labels in
      let series = add_to doubles key by (series_of doubles name registry.counters) in
      let stored = series_of-put name name series registry.counters in
      let mine = same_text_refl name in
      let read =
        find-add_to key (series_key (or_else keys []) labels') by
          (series_of doubles name registry.counters) in
      ground (arith, stored, mine, read)

  pub increment_keeps_defs :
      (d : Option (MetricDefinition N)) (name : Text) (labels : Table Text) (by : N)
      (registry : MetricsRegistry N)
      → (increment_defined doubles d name labels by registry).defs ≡ registry.defs
  increment_keeps_defs none name labels by registry = refl
  increment_keeps_defs (some (histogram n h keys buckets)) name labels by registry = refl
  increment_keeps_defs (some (counter n h keys)) name labels by registry = ground arith

  other_series :
      (d : Option (MetricDefinition N)) (name other : Text) (labels : Table Text) (by : N)
      (registry : MetricsRegistry N)
      → same_text name other ≡ false
      → series_of doubles other (increment_defined doubles d name labels by registry).counters
        ≡ series_of doubles other registry.counters
  other_series none name other labels by registry differ = refl
  other_series (some (histogram n h keys buckets)) name other labels by registry differ = refl
  other_series (some (counter n h keys)) name other labels by registry differ =
      let key = series_key (or_else keys []) labels in
      let series = add_to doubles key by (series_of doubles name registry.counters) in
      let stored = series_of-put name other series registry.counters in
      elim (Bool-cases (lt zero_double by)) [
        | inl positive ↦ ground (arith, stored)
        | inr ignored ↦ ground arith
      ]

  read_alike :
      (d : Option (MetricDefinition N)) (name : Text) (labels : Table Text)
      (registry registry' : MetricsRegistry N)
      → series_of doubles name registry'.counters ≡ series_of doubles name registry.counters
      → counter_read doubles d name labels registry' ≡ counter_read doubles d name labels registry
  read_alike none name labels registry registry' same = refl
  read_alike (some (histogram n h keys buckets)) name labels registry registry' same = refl
  read_alike (some (counter n h keys)) name labels registry registry' same = ground (arith, same)

  -- An increment of one metric changes no counter of another name.
  pub counter_value-other :
      (registry : MetricsRegistry N) (name other : Text) (labels labels' : Table Text) (by : N)
      → same_text name other ≡ false
      → counter_value doubles other labels' (increment doubles name labels by registry)
        ≡ counter_value doubles other labels' registry
  unfolding increment counter_value
  counter_value-other registry name other labels labels' by differ =
      let d = find name registry.defs in
      let after = increment_defined doubles d name labels by registry in
      let kept = increment_keeps_defs d name labels by registry in
      ap (λ defs. counter_read doubles (find other defs) other labels' after) kept
      ∙ read_alike (find other registry.defs) other labels' registry after
          (other_series d name other labels by registry differ)

  -- If a declared label has another value, or is present in one set of labels only, then counting
  -- under the one set leaves the counter of the other set as it was. The declared names are valid.
  pub increment_separates :
      (registry : MetricsRegistry N) (n help : Text) (keys : List Text) (name key : Text)
      (labels labels' : Table Text) (by : N)
      → find name registry.defs ≡ some (counter n help (some keys))
      → lt zero_double by ≡ true
      → ValidNames keys
      → has keys key ≡ true
      → find key labels ≢ find key labels'
      → counter_value doubles name labels' (increment doubles name labels by registry)
        ≡ counter_value doubles name labels' registry
  increment_separates registry n help keys name key labels labels' by defined positive valid
        declared differ =
      let added =
        counter_value-increment registry n help (some keys) name labels by labels' defined
          positive in
      elim (Bool-cases (same_text (series_key keys labels) (series_key keys labels'))) [
        | inl same ↦ absurd (
            differ
              (series_key-inj keys labels labels' key valid (same_text-true _ _ same) declared))
        | inr apart ↦ ground (arith, added)
      ]
