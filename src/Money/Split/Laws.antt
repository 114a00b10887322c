-- ===== src/Money/Split/Laws.antt =====
-- What the split helpers guarantee: the total is kept to the unit, and the shares are even.
use split_bill_app.Prelude.{
  ℕ, zero, suc, ◌+◌, ◌-◌, ◌*◌, ◌/◌, ◌%◌, ◌≤◌, ◌<◌, min, ◌≡◌, refl, ap, ◌∙◌, List, [], ◌∷◌, ◌++◌,
  map, length, sum_of, arith, ◌≢◌,
}
use mathlib.Core.List.{foldl}
use native.Mathlib.Nat.{div-add-mod, mod-lt}
use split_bill_app.Money.Split.{
  SplitAmount, shares_from, calculate_equal_splits, add_split, sum_split_amounts,
}

abbrev pub amounts : List SplitAmount → List ℕ
amounts splits = map (λ s. s.amount_minor_units) splits

abbrev pub users : List SplitAmount → List ℕ
users splits = map (λ s. s.user_id) splits

abbrev pub replicate : ℕ → ℕ → List ℕ
replicate zero a = []
replicate (suc n) a = a ∷ replicate n a

foldl-add_split :
    (acc : ℕ) (splits : List SplitAmount)
    → foldl add_split acc splits ≡ acc + sum_of (λ s. s.amount_minor_units) splits
foldl-add_split acc [] = omega arith
foldl-add_split acc (s ∷ ss) = foldl-add_split (acc + s.amount_minor_units) ss ∙ omega arith

pub sum_split_amounts-eq-sum_of :
    (splits : List SplitAmount)
    → sum_split_amounts splits ≡ sum_of (λ s. s.amount_minor_units) splits
unfolding sum_split_amounts
sum_split_amounts-eq-sum_of splits = foldl-add_split 0 splits ∙ omega arith

sum_of-shares_from :
    (b r i : ℕ) (ids : List ℕ)
    → sum_of (λ s. s.amount_minor_units) (shares_from b r i ids) + min r i
      ≡ b * length ids + min r (i + length ids)
sum_of-shares_from b r i [] = omega arith
sum_of-shares_from b r i (x ∷ xs) = grind (arith, sum_of-shares_from b r (i + 1) xs)

users-shares_from : (b r i : ℕ) (ids : List ℕ) → users (shares_from b r i ids) ≡ ids
users-shares_from b r i [] = refl
users-shares_from b r i (x ∷ xs) = ap (λ l. x ∷ l) (users-shares_from b r (i + 1) xs)

length-pos : (ids : List ℕ) → ids ≢ [] → 0 < length ids
length-pos [] h = absurd (h refl)
length-pos (x ∷ xs) h = omega arith

pub calculate_equal_splits_nonempty :
    (total : ℕ) (ids : List ℕ)
    → ids ≢ []
    → calculate_equal_splits total ids ≡ shares_from (total / length ids) (total % length ids) 0 ids
unfolding calculate_equal_splits
calculate_equal_splits_nonempty total [] h = absurd (h refl)
calculate_equal_splits_nonempty total (x ∷ xs) h = ground arith

-- The equal shares of a total add up to exactly that total, for any non-empty list of participants.
pub sum_split_amounts-calculate_equal_splits :
    (total : ℕ) (ids : List ℕ)
    → ids ≢ []
    → sum_split_amounts (calculate_equal_splits total ids) ≡ total
sum_split_amounts-calculate_equal_splits total ids h =
    rw (sum_split_amounts-eq-sum_of, calculate_equal_splits_nonempty total ids h)
      (omega (
        arith,
        sum_of-shares_from (total / length ids) (total % length ids) 0 ids,
        div-add-mod total (length ids),
        mod-lt total (length-pos ids h),
      ))

amounts-shares_from_full :
    (b r i : ℕ) (ids : List ℕ) → r ≤ i → amounts (shares_from b r i ids) ≡ replicate (length ids) b
amounts-shares_from_full b r i [] h = refl
amounts-shares_from_full b r i (x ∷ xs) h = ground (arith, amounts-shares_from_full b r (i + 1) xs)

amounts-shares_from :
    (b k i r : ℕ) (ids : List ℕ)
    → r ≡ i + k
    → k ≤ length ids
    → amounts (shares_from b r i ids) ≡ replicate k (b + 1) ++ replicate (length ids - k) b
amounts-shares_from b zero i r ids e h =
    amounts-shares_from_full b r i ids (omega arith) ∙ ap (λ n. replicate n b) (omega arith)
amounts-shares_from b (suc k) i r [] e h = absurd (omega arith)
amounts-shares_from b (suc k) i r (x ∷ xs) e h =
    ground (arith, amounts-shares_from b k (i + 1) r xs)

-- The participants keep their order, and the remainder goes to the first of them, one unit each:
-- the first `total % n` shares are `total / n + 1`, the others `total / n`.
pub calculate_equal_splits_even :
    (total : ℕ) (ids : List ℕ)
    → ids ≢ []
    → let n = length ids in
      let splits = calculate_equal_splits total ids in
      (users splits ≡ ids)
      × (amounts splits
          ≡ replicate (total % n) (total / n + 1) ++ replicate (n - total % n) (total / n))
calculate_equal_splits_even total ids h = rw (calculate_equal_splits_nonempty total ids h) (
  users-shares_from _ _ 0 ids,
  amounts-shares_from (total / length ids) (total % length ids) 0 _ ids (omega arith)
      (omega (arith, mod-lt total (length-pos ids h))),
)
