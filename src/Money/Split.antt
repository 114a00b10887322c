-- ===== src/Money/Split.antt =====
-- backend/src/modules/expenses/split.util.ts. Amounts are the non-negative bigints that the
-- validators let in; a user id is an opaque number that is only compared.
pub mod Laws
use split_bill_app.Prelude.{ℕ, ◌+◌, ◌/◌, ◌%◌, List, [], ◌∷◌, length, ltb, ◌==◌, if◌then◌else◌}
use mathlib.Core.List.{foldl}

pub record SplitAmount : Type 0 where
  pub user_id : ℕ
  pub amount_minor_units : ℕ

-- The `map` of `calculateEqualSplits`, from a given index on.
abbrev pub shares_from : ℕ → ℕ → ℕ → List ℕ → List SplitAmount
shares_from base_share remainder index [] = []
shares_from base_share remainder index (user_id ∷ rest) =
    record {
      user_id = user_id;
      amount_minor_units = base_share + (if ltb index remainder then 1 else 0);
    }
    ∷ shares_from base_share remainder (index + 1) rest

unfoldable pub calculate_equal_splits : ℕ → List ℕ → List SplitAmount
calculate_equal_splits total_minor_units participant_ids =
    let count = length participant_ids in
    if count == 0
    then []
    else shares_from (total_minor_units / count) (total_minor_units % count) 0 participant_ids

abbrev add_split : ℕ → SplitAmount → ℕ
add_split sum split = sum + split.amount_minor_units

unfoldable pub sum_split_amounts : List SplitAmount → ℕ
sum_split_amounts splits = foldl add_split 0 splits
