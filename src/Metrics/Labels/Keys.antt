-- ===== src/Metrics/Labels/Keys.antt =====
-- Two sets of labels have the same series key only if every declared label has the same value.
use split_bill_app.Prelude.{
  ◌≡◌, refl, sym, ap, ◌∙◌, inl, inr, List, [], ◌∷◌, ◌++◌, none, some, Bool, true, false, ◌==◌, ◌||◌,
  if◌then◌else◌, Bool-cases, Option-cases, All, arith,
}
use mathlib.Core.List.{append_assoc}
use split_bill_app.Metrics.Table.{Text, Table, find, same_text, same_text-true}
use split_bill_app.Metrics.Labels.{
  all_parts, valid_name, escape_label_value, part, parts_of, join, braced, series_key,
}
use split_bill_app.Metrics.Labels.Escaping.{value_of, rest_of, value_of-escape, rest_of-escape}

-- The name that is read up to `=`, and the text after `="`.
abbrev name_of : Text → Text
name_of [] = []
name_of (x ∷ xs) = if x == 61 then [] else x ∷ name_of xs

abbrev after_name : Text → Text
after_name [] = []
after_name (x ∷ xs) = if x == 61 then xs else after_name xs

abbrev drop_one : Text → Text
drop_one [] = []
drop_one (x ∷ xs) = xs

name_of-part : (k r : Text) → all_parts k ≡ true → name_of (k ++ 61 ∷ r) ≡ k
name_of-part [] r h = refl
name_of-part (x ∷ xs) r h = ground (arith, name_of-part xs r)

after_name-part : (k r : Text) → all_parts k ≡ true → after_name (k ++ 61 ∷ r) ≡ r
after_name-part [] r h = refl
after_name-part (x ∷ xs) r h = ground (arith, after_name-part xs r)

part-append : (k v t : Text) → part k v ++ t ≡ k ++ 61 ∷ 34 ∷ (escape_label_value v ++ 34 ∷ t)
part-append k v t =
    append_assoc k _ t
    ∙ ap (λ (r : Text). k ++ 61 ∷ 34 ∷ r) (append_assoc (escape_label_value v) (34 ∷ []) t)

-- A label with what follows it can be taken apart.
part-inj :
    (k k' v v' t t' : Text)
    → all_parts k ≡ true
    → all_parts k' ≡ true
    → part k v ++ t ≡ part k' v' ++ t'
    → (k ≡ k') × (v ≡ v') × (t ≡ t')
part-inj k k' v v' t t' h h' e =
    let same : k ++ 61 ∷ 34 ∷ (escape_label_value v ++ 34 ∷ t)
        ≡ k' ++ 61 ∷ 34 ∷ (escape_label_value v' ++ 34 ∷ t') =
      sym (part-append k v t) ∙ e ∙ part-append k' v' t' in
    let values : escape_label_value v ++ 34 ∷ t ≡ escape_label_value v' ++ 34 ∷ t' =
      ap drop_one (sym (after_name-part k _ h) ∙ ap after_name same ∙ after_name-part k' _ h') in
    (
      sym (name_of-part k _ h) ∙ ap name_of same ∙ name_of-part k' _ h',
      sym (value_of-escape v t) ∙ ap (value_of false) values ∙ value_of-escape v' t',
      sym (rest_of-escape v t) ∙ ap (rest_of false) values ∙ rest_of-escape v' t',
    )

-- The labels that are present, in the declared order.
abbrev pairs_of : List Text → Table Text → Table Text
pairs_of [] labels = []
pairs_of (key ∷ keys) labels = elim (find key labels) [
  | none ↦ pairs_of keys labels
  | some raw ↦ (key, raw) ∷ pairs_of keys labels
]

abbrev written : Table Text → List Text
written [] = []
written ((k, v) ∷ ps) = part k v ∷ written ps

-- What follows a label.
abbrev tail : Table Text → Text
tail [] = 125 ∷ []
tail ((k, v) ∷ ps) = 44 ∷ (part k v ++ tail ps)

abbrev Named : Table Text → Type 0
Named [] = Unit
Named ((k, v) ∷ ps) = (all_parts k ≡ true) × Named ps

parts_of-written : (ks : List Text) (a : Table Text) → parts_of ks a ≡ written (pairs_of ks a)
parts_of-written [] a = refl
parts_of-written (k ∷ ks) a = elim (Option-cases (find k a)) [
  | inl missing ↦ ground (arith, parts_of-written ks a)
  | inr (v, there) ↦ ground (arith, parts_of-written ks a)
]

join-tail : (p : Text) (ps : Table Text) → join (p ∷ written ps) ++ 125 ∷ [] ≡ p ++ tail ps
join-tail p [] = refl
join-tail p ((k, v) ∷ ps) =
    append_assoc p _ (125 ∷ []) ∙ ap (λ (r : Text). p ++ 44 ∷ r) (join-tail (part k v) ps)

tail-inj : (ps qs : Table Text) → Named ps → Named qs → tail ps ≡ tail qs → ps ≡ qs
tail-inj [] [] h h' e = refl
tail-inj [] ((k, v) ∷ qs) h h' e = absurd (ground arith)
tail-inj ((k, v) ∷ ps) [] h h' e = absurd (ground arith)
tail-inj ((k, v) ∷ ps) ((k', v') ∷ qs) h h' e =
    let (names, values, rest) = part-inj k k' v v' (tail ps) (tail qs) h.0 h'.0 (ap drop_one e) in
    let others = tail-inj ps qs h.1 h'.1 rest in rw (names, values, others) refl

braced-inj :
    (ps qs : Table Text) → Named ps → Named qs → braced (written ps) ≡ braced (written qs) → ps ≡ qs
braced-inj [] [] h h' e = refl
braced-inj [] ((k, v) ∷ qs) h h' e = absurd (ground arith)
braced-inj ((k, v) ∷ ps) [] h h' e = absurd (ground arith)
braced-inj ((k, v) ∷ ps) ((k', v') ∷ qs) h h' e =
    let (names, values, rest) =
      part-inj k k' v v' (tail ps) (tail qs) h.0 h'.0
        (sym (join-tail (part k v) ps) ∙ ap drop_one e ∙ join-tail (part k' v') qs) in
    let others = tail-inj ps qs h.1 h'.1 rest in rw (names, values, others) refl

-- `labelKeys.includes(key)`
abbrev pub has : List Text → Text → Bool
has [] k = false
has (j ∷ js) k = same_text j k || has js k

not_paired :
    (ks : List Text) (k : Text) (a : Table Text) → find k a ≡ none → find k (pairs_of ks a) ≡ none
not_paired [] k a h = refl
not_paired (j ∷ js) k a h = elim (Option-cases (find j a)) [
  | inl missing ↦ ground (arith, not_paired js k a h)
  | inr (v, there) ↦ elim (Bool-cases (same_text j k)) [
    | inl same ↦
        let e = same_text-true j k same in absurd (ground (arith, ap (λ (x : Text). find x a) e))
    | inr differ ↦ ground (arith, not_paired js k a h)
  ]
]

paired :
    (ks : List Text) (k : Text) (a : Table Text)
    → has ks k ≡ true
    → find k (pairs_of ks a) ≡ find k a
paired [] k a h = absurd (ground arith)
paired (j ∷ js) k a h = elim (Bool-cases (same_text j k)) [
  | inl same ↦
      let e = same_text-true j k same in
      elim (Option-cases (find k a)) [
        | inl missing ↦ not_paired (j ∷ js) k a missing ∙ sym missing
        | inr (v, there) ↦ ground (arith, ap (λ (x : Text). find x a) e)
      ]
  | inr differ ↦ elim (Option-cases (find j a)) [
    | inl missing ↦ ground (arith, paired js k a)
    | inr (v, there) ↦ ground (arith, paired js k a)
  ]
]

-- Every name is valid.
abbrev pub ValidNames : List Text → Type 0
ValidNames ks = All (λ k. valid_name k ≡ true) ks

valid_parts : (k : Text) → valid_name k ≡ true → all_parts k ≡ true
valid_parts [] h = refl
valid_parts (x ∷ xs) h = ground arith

pairs_of-Named : (ks : List Text) (a : Table Text) → ValidNames ks → Named (pairs_of ks a)
pairs_of-Named [] a h = tt
pairs_of-Named (k ∷ ks) a (first, rest) =
    let others = pairs_of-Named ks a rest in
    elim (find k a)
      as (λ o. Named (elim o [ none ↦ pairs_of ks a | some raw ↦ (k, raw) ∷ pairs_of ks a ])) [
        | none ↦ others
        | some raw ↦ (valid_parts k first, others)
      ]

-- If the declared label names are valid and two sets of labels have the same series key, then every
-- declared label has the same value in both, or is missing in both: no value, whatever characters it
-- has, can make one series pass for another.
pub series_key-inj :
    (label_keys : List Text) (a b : Table Text) (key : Text)
    → ValidNames label_keys
    → series_key label_keys a ≡ series_key label_keys b
    → has label_keys key ≡ true
    → find key a ≡ find key b
unfolding series_key
series_key-inj ks a b key valid same declared =
    let written_same : braced (written (pairs_of ks a)) ≡ braced (written (pairs_of ks b)) =
      ap braced (sym (parts_of-written ks a)) ∙ same ∙ ap braced (parts_of-written ks b) in
    let pairs =
      braced-inj (pairs_of ks a) (pairs_of ks b) (pairs_of-Named ks a valid)
        (pairs_of-Named ks b valid) written_same in
    sym (paired ks key a declared) ∙ ap (find key) pairs ∙ paired ks key b declared
