-- ===== src/Metrics/Labels.antt =====
-- The key of a series (backend/src/metrics/registry.ts): the names of labels, the escaping of their
-- values, and `seriesKey`.
pub mod Escaping
pub mod Keys
use split_bill_app.Prelude.{
  ℕ, List, [], ◌∷◌, ◌++◌, Option, none, some, Bool, true, false, ◌==◌, leb, ◌&&◌, ◌||◌,
  if◌then◌else◌,
}
use split_bill_app.Metrics.Table.{Text, Table, find}

-- METRIC_NAME_PATTERN: a letter or `_`, then letters, digits and `_`.
abbrev pub is_start : ℕ → Bool
is_start c = (leb 97 c && leb c 122) || (leb 65 c && leb c 90) || c == 95

abbrev pub is_part : ℕ → Bool
is_part c = is_start c || (leb 48 c && leb c 57)

abbrev pub all_parts : Text → Bool
all_parts [] = true
all_parts (c ∷ cs) = is_part c && all_parts cs

abbrev pub valid_name : Text → Bool
valid_name [] = false
valid_name (c ∷ cs) = is_start c && all_parts cs

-- `value.replace(/c/g, w)` for one code unit `c`
abbrev pub replace : ℕ → Text → Text → Text
replace c w [] = []
replace c w (x ∷ xs) = (if x == c then w else x ∷ []) ++ replace c w xs

-- A backslash is 92, a quote 34, a newline 10, and `n` is 110.
unfoldable pub escape_label_value : Text → Text
escape_label_value value =
    replace 10 (92 ∷ 110 ∷ []) (replace 34 (92 ∷ 34 ∷ []) (replace 92 (92 ∷ 92 ∷ []) value))

-- `key="value"`
abbrev pub part : Text → Text → Text
part key raw = key ++ 61 ∷ 34 ∷ (escape_label_value raw ++ 34 ∷ [])

abbrev pub parts_of : List Text → Table Text → List Text
parts_of [] labels = []
parts_of (key ∷ keys) labels = elim (find key labels) [
  | none ↦ parts_of keys labels
  | some raw ↦ part key raw ∷ parts_of keys labels
]

-- `parts.join(",")`
abbrev pub join : List Text → Text
join [] = []
join (p ∷ []) = p
join (p ∷ q ∷ ps) = p ++ 44 ∷ join (q ∷ ps)

abbrev pub braced : List Text → Text
braced [] = []
braced (p ∷ ps) = 123 ∷ (join (p ∷ ps) ++ 125 ∷ [])

unfoldable pub series_key : List Text → Table Text → Text
series_key label_keys labels = braced (parts_of label_keys labels)
