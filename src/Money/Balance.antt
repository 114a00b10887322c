-- ===== src/Money/Balance.antt =====
-- backend/src/modules/settlements/balance.util.ts: the net balances of a group.
pub mod Laws
pub mod Members
use split_bill_app.Prelude.{ℕ, List, [], ◌∷◌, ℤ, pos, ◌+ℤ◌, ◌-ℤ◌, Dict, lookup, insert, or_else}
use mathlib.Core.List.{foldl}
use split_bill_app.Money.Split.{SplitAmount}

pub record ExpenseForBalance : Type 0 where
  pub paid_by_id : ℕ
  pub amount_minor_units : ℕ
  pub splits : List SplitAmount

pub record SettlementForBalance : Type 0 where
  pub payer_id : ℕ
  pub payee_id : ℕ
  pub amount_minor_units : ℕ

-- The map from a user id to a balance.
abbrev pub Balances : Type 0
Balances = Dict ℤ

abbrev pub balance_of : ℕ → Balances → ℤ
balance_of user_id balances = or_else (lookup user_id balances) (pos 0)

abbrev pub credit : ℕ → ℤ → Balances → Balances
credit user_id amount balances = insert user_id (balance_of user_id balances +ℤ amount) balances

abbrev pub debit_split : Balances → SplitAmount → Balances
debit_split balances split = credit split.user_id (pos 0 -ℤ pos split.amount_minor_units) balances

abbrev pub add_expense : Balances → ExpenseForBalance → Balances
add_expense balances expense =
    foldl debit_split (credit expense.paid_by_id (pos expense.amount_minor_units) balances)
      expense.splits

abbrev pub add_settlement : Balances → SettlementForBalance → Balances
add_settlement balances settlement =
    credit settlement.payee_id (pos 0 -ℤ pos settlement.amount_minor_units)
      (credit settlement.payer_id (pos settlement.amount_minor_units) balances)

unfoldable pub calculate_balances : List ExpenseForBalance → List SettlementForBalance → Balances
calculate_balances expenses settlements =
    foldl add_settlement (foldl add_expense [] expenses) settlements
