-- ===== src/Metrics/Render.antt =====
-- `renderPrometheus` (backend/src/metrics/registry.ts). How a double and a count are printed is a
-- parameter.
use split_bill_app.Prelude.{ℕ, ◌+◌, List, [], ◌∷◌, ◌++◌, or_else, Bool, if◌then◌else◌}
use split_bill_app.Metrics.Table.{Text, Table, codes}
use split_bill_app.Metrics.Labels.{escape_label_value}
use split_bill_app.Metrics.Registry.{
  Doubles, MetricDefinition, counter, histogram, HistogramSeries, MetricsRegistry, series_of,
}

-- `String(value)`, `Number(value.toFixed(6))` and `Number.isInteger`.
pub record Printing (N : Type 0) : Type 0 where
  pub text_of : N → Text
  pub rounded : N → N
  pub is_integer : N → Bool
  pub text_of_count : ℕ → Text

abbrev pub with_newlines : List Text → Text
with_newlines [] = 10 ∷ []
with_newlines (line ∷ []) = line ++ 10 ∷ []
with_newlines (line ∷ next ∷ lines) = line ++ 10 ∷ with_newlines (next ∷ lines)

-- `keys.slice(0, -1)`
abbrev pub without_last : Text → Text
without_last [] = []
without_last (x ∷ []) = []
without_last (x ∷ y ∷ ys) = x ∷ without_last (y ∷ ys)

-- The key of a series with the label `le` at its end.
abbrev pub with_le : Text → Text → Text
with_le [] le = codes "{le=\"" ++ le ++ codes "\"}"
with_le (x ∷ xs) le = without_last (x ∷ xs) ++ codes ",le=\"" ++ le ++ codes "\"}"

module _ {N : Type 0} (doubles : Doubles N) (printing : Printing N) where
  open printing use {text_of, rounded, is_integer, text_of_count}

  abbrev pub format_value : N → Text
  format_value value = if is_integer value then text_of value else text_of (rounded value)

  abbrev pub bucket_line : Text → Text → N → ℕ → Text
  bucket_line name keys bucket cumulative =
      name
      ++ codes "_bucket"
      ++ with_le keys (escape_label_value (text_of bucket))
      ++ codes " "
      ++ text_of_count cumulative

  -- The loop over the buckets, with the count so far.
  abbrev pub bucket_lines : Text → Text → ℕ → List N → List ℕ → List Text
  bucket_lines name keys cumulative [] counts = []
  bucket_lines name keys cumulative (b ∷ bs) [] =
      bucket_line name keys b cumulative ∷ bucket_lines name keys cumulative bs []
  bucket_lines name keys cumulative (b ∷ bs) (c ∷ cs) =
      bucket_line name keys b (cumulative + c) ∷ bucket_lines name keys (cumulative + c) bs cs

  abbrev pub histogram_lines : Text → List N → Table (HistogramSeries N) → List Text
  histogram_lines name buckets [] = []
  histogram_lines name buckets ((keys, entry) ∷ series) =
      bucket_lines name keys 0 buckets entry.counts
      ++ (name
          ++ codes "_bucket"
          ++ with_le keys (codes "+Inf")
          ++ codes " "
          ++ text_of_count entry.count)
        ∷ (name ++ codes "_sum" ++ keys ++ codes " " ++ format_value entry.sum)
        ∷ (name ++ codes "_count" ++ keys ++ codes " " ++ text_of_count entry.count)
        ∷ histogram_lines name buckets series

  abbrev pub counter_lines : Text → Table N → List Text
  counter_lines name [] = []
  counter_lines name ((keys, value) ∷ series) =
      (name ++ keys ++ codes " " ++ format_value value) ∷ counter_lines name series

  abbrev pub definition_lines : MetricsRegistry N → MetricDefinition N → List Text
  definition_lines registry (counter name help label_keys) =
      (codes "# HELP " ++ name ++ codes " " ++ help)
      ∷ (codes "# TYPE " ++ name ++ codes " counter")
      ∷ counter_lines name (series_of doubles name registry.counters)
  definition_lines registry (histogram name help label_keys buckets) =
      (codes "# HELP " ++ name ++ codes " " ++ help)
      ∷ (codes "# TYPE " ++ name ++ codes " histogram")
      ∷ histogram_lines name (or_else buckets doubles.default_buckets)
          (series_of doubles name registry.histograms)

  abbrev pub all_lines : MetricsRegistry N → Table (MetricDefinition N) → List Text
  all_lines registry [] = []
  all_lines registry ((name, def) ∷ defs) = definition_lines registry def ++ all_lines registry defs

  unfoldable pub render_prometheus : MetricsRegistry N → Text
  render_prometheus registry = with_newlines (all_lines registry registry.defs)
