-- ===== src/Metrics/Table.antt =====
-- Texts, and a JavaScript `Map` keyed by texts, in insertion order: `get` is `find`, `set` is `put`.
use split_bill_app.Prelude.{
  ℕ, ◌≡◌, refl, ap, inl, inr, List, [], ◌∷◌, Option, none, some, Bool, true, false, ◌==◌, ◌&&◌,
  if◌then◌else◌, Bool-cases, String, arith,
}
use Prim.Native.Char.{code}

abbrev pub Text : Type 0
Text = List ℕ

abbrev pub codes : String → Text
codes String.[] = []
codes (String.◌∷◌ c s) = code c ∷ codes s

abbrev pub same_text : Text → Text → Bool
same_text [] [] = true
same_text [] (y ∷ ys) = false
same_text (x ∷ xs) [] = false
same_text (x ∷ xs) (y ∷ ys) = (x == y) && same_text xs ys

pub same_text-true : (a b : Text) → same_text a b ≡ true → a ≡ b
same_text-true [] [] h = refl
same_text-true [] (y ∷ ys) h = absurd (ground arith)
same_text-true (x ∷ xs) [] h = absurd (ground arith)
same_text-true (x ∷ xs) (y ∷ ys) h =
    let rest : xs ≡ ys = same_text-true xs ys (ground arith) in
    let first : x ≡ y = ground arith in rw (first, rest) refl

pub same_text_refl : (a : Text) → same_text a a ≡ true
same_text_refl [] = refl
same_text_refl (x ∷ xs) = ground (arith, same_text_refl xs)

abbrev pub Table : Type 0 → Type 0
Table V = List (Text × V)

module _ {V : Type 0} where
  abbrev pub find : Text → Table V → Option V
  find k [] = none
  find k ((j, v) ∷ t) = if same_text j k then some v else find k t

  abbrev pub put : Text → V → Table V → Table V
  put k v [] = (k, v) ∷ []
  put k v ((j, w) ∷ t) = if same_text j k then (k, v) ∷ t else (j, w) ∷ put k v t

  pub find-put :
      (k j : Text) (v : V) (t : Table V)
      → find j (put k v t) ≡ (if same_text k j then some v else find j t)
  find-put k j v [] = refl
  find-put k j v ((i, w) ∷ t) = elim (Bool-cases (same_text i k)) [
    | inl same ↦ let e = same_text-true i k same in ground (arith, e)
    | inr differ ↦ elim (Bool-cases (same_text k j)) [
      | inl equal ↦
          let e = same_text-true k j equal in ground (arith, ap (same_text i) e, find-put k j v t)
      | inr unequal ↦ ground (arith, find-put k j v t)
    ]
  ]
