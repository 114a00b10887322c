-- ===== src/Money/Tests.antt =====
-- The split helpers and the balances on small inputs, and the laws applied to them.
use split_bill_app.Prelude.{ℕ, ◌≡◌, refl, List, [], ◌∷◌, ◌++◌, pos, ◌-ℤ◌, Distinct, arith}
use split_bill_app.Money.Split.{SplitAmount, calculate_equal_splits, sum_split_amounts}
use split_bill_app.Money.Split.Laws.{
  users, amounts, replicate, sum_split_amounts-calculate_equal_splits, calculate_equal_splits_even,
}
use split_bill_app.Money.Balance.{
  ExpenseForBalance, SettlementForBalance, calculate_balances, balance_of,
}
use split_bill_app.Money.Balance.Laws.{
  sum_of_balances, balance_of-calculate_balances, sum-calculate_balances, calculate_balances_zero,
}
use split_bill_app.Money.Balance.Members.{sum_ℤ, balances_of, balances_of_members_zero}

abbrev three : List ℕ
three = 4 ∷ 2 ∷ 9 ∷ []

sum_split_amounts-calculate_equal_splits_example :
    sum_split_amounts (calculate_equal_splits 100 three) ≡ 100
sum_split_amounts-calculate_equal_splits_example =
    sum_split_amounts-calculate_equal_splits 100 three (λ e. ground arith)

calculate_equal_splits_even_example :
    (users (calculate_equal_splits 101 three) ≡ three)
    × (amounts (calculate_equal_splits 101 three) ≡ replicate 2 34 ++ replicate 1 33)
calculate_equal_splits_even_example = calculate_equal_splits_even 101 three (λ e. ground arith)

abbrev share : ℕ → ℕ → SplitAmount
share user_id amount = record { user_id = user_id; amount_minor_units = amount }

-- User 1 pays 90 for 1, 2 and 3; user 2 sends 20 to user 1.
abbrev expenses : List ExpenseForBalance
expenses =
    record {
      paid_by_id = 1;
      amount_minor_units = 90;
      splits = share 1 30 ∷ share 2 30 ∷ share 3 30 ∷ [];
    }
    ∷ []

abbrev settlements : List SettlementForBalance
settlements = record { payer_id = 2; payee_id = 1; amount_minor_units = 20 } ∷ []

balance_of-calculate_balances_example :
    balance_of 2 (calculate_balances expenses settlements) ≡ pos 20 -ℤ pos 30
balance_of-calculate_balances_example = balance_of-calculate_balances 2 expenses settlements

sum-calculate_balances_example :
    sum_of_balances (calculate_balances expenses settlements) ≡ pos 90 -ℤ pos 90
sum-calculate_balances_example = sum-calculate_balances expenses settlements

calculate_balances_zero_example : sum_of_balances (calculate_balances expenses settlements) ≡ pos 0
calculate_balances_zero_example = calculate_balances_zero expenses settlements (refl, tt)

members_differ : Distinct (3 ∷ 1 ∷ 2 ∷ [])
members_differ = ground arith

balances_of_members_zero_example : sum_ℤ (balances_of (3 ∷ 1 ∷ 2 ∷ []) expenses settlements) ≡ pos 0
balances_of_members_zero_example =
    balances_of_members_zero (3 ∷ 1 ∷ 2 ∷ []) expenses settlements members_differ
      (((refl, (refl, (refl, (refl, tt)))), tt), ((refl, refl), tt)) (refl, tt)
