-- ===== src/Metrics/Labels/Escaping.antt =====
-- An escaped value can be read back, and where it ends is known.
use split_bill_app.Prelude.{
  ℕ, ◌≡◌, refl, sym, ap, ◌∙◌, inl, inr, [], ◌∷◌, ◌++◌, Bool, true, false, ◌==◌, if◌then◌else◌,
  Bool-cases, arith,
}
use mathlib.Core.List.{append_assoc}
use split_bill_app.Metrics.Table.{Text}
use split_bill_app.Metrics.Labels.{replace, escape_label_value}

-- What one code unit becomes.
abbrev pub escaped : ℕ → Text
escaped x =
    if x == 92
    then 92 ∷ 92 ∷ []
    else if x == 34
    then 92 ∷ 34 ∷ []
    else if x == 10
    then 92 ∷ 110 ∷ []
    else x ∷ []

replace-++ : (c : ℕ) (w a b : Text) → replace c w (a ++ b) ≡ replace c w a ++ replace c w b
replace-++ c w [] b = refl
replace-++ c w (x ∷ xs) b =
    ap (λ t. (if x == c then w else x ∷ []) ++ t) (replace-++ c w xs b)
    ∙ sym (append_assoc (if x == c then w else x ∷ []) _ _)

-- The three passes are one.
pub escape-cons :
    (x : ℕ) (xs : Text) → escape_label_value (x ∷ xs) ≡ escaped x ++ escape_label_value xs
unfolding escape_label_value
escape-cons x xs = elim (Bool-cases (x == 92)) [
  | inl backslash ↦ ground arith
  | inr other ↦ elim (Bool-cases (x == 34)) [
    | inl quote ↦ ground arith
    | inr another ↦ elim (Bool-cases (x == 10)) [
      | inl newline ↦ ground arith
      | inr plain ↦ ground arith
    ]
  ]
]

-- The value that is read after an opening quote, and the text after its closing quote. The first
-- argument tells whether a backslash was read last.
abbrev pub value_of : Bool → Text → Text
value_of after [] = []
value_of true (x ∷ xs) = (if x == 110 then 10 else x) ∷ value_of false xs
value_of false (x ∷ xs) =
    if x == 92 then value_of true xs else if x == 34 then [] else x ∷ value_of false xs

abbrev pub rest_of : Bool → Text → Text
rest_of after [] = []
rest_of true (x ∷ xs) = rest_of false xs
rest_of false (x ∷ xs) =
    if x == 92 then rest_of true xs else if x == 34 then xs else rest_of false xs

pub value_of-escape : (v r : Text) → value_of false (escape_label_value v ++ 34 ∷ r) ≡ v
unfolding escape_label_value
value_of-escape [] r = refl
value_of-escape (x ∷ xs) r = rw (escape-cons x xs) (elim (Bool-cases (x == 92)) [
  | inl backslash ↦ ground (arith, value_of-escape xs r)
  | inr other ↦ elim (Bool-cases (x == 34)) [
    | inl quote ↦ ground (arith, value_of-escape xs r)
    | inr another ↦ elim (Bool-cases (x == 10)) [
      | inl newline ↦ ground (arith, value_of-escape xs r)
      | inr plain ↦ ground (arith, value_of-escape xs r)
    ]
  ]
])

pub rest_of-escape : (v r : Text) → rest_of false (escape_label_value v ++ 34 ∷ r) ≡ r
unfolding escape_label_value
rest_of-escape [] r = refl
rest_of-escape (x ∷ xs) r = rw (escape-cons x xs) (elim (Bool-cases (x == 92)) [
  | inl backslash ↦ ground (arith, rest_of-escape xs r)
  | inr other ↦ elim (Bool-cases (x == 34)) [
    | inl quote ↦ ground (arith, rest_of-escape xs r)
    | inr another ↦ elim (Bool-cases (x == 10)) [
      | inl newline ↦ ground (arith, rest_of-escape xs r)
      | inr plain ↦ ground (arith, rest_of-escape xs r)
    ]
  ]
])
