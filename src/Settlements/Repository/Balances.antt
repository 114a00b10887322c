-- ===== src/Settlements/Repository/Balances.antt =====
-- The reads of backend/src/modules/settlements/settlement.repository.ts that the balances of a group
-- are computed from. The two calls of the Prisma client are a parameter.
use split_bill_app.Prelude.{ℕ, ◌≡◌, List, map, All, some}
use split_bill_app.Effects.{Result, ok, err}
use split_bill_app.Money.Split.{SplitAmount}
use split_bill_app.Money.Balance.{ExpenseForBalance, SettlementForBalance}
use split_bill_app.Expenses.{ExpenseWithDetails}
use split_bill_app.Expenses.Repository.Tables.{ExpenseClient, Mirrors}

-- The columns that `select` asks for.
pub record BalanceRow : Type 0 where
  pub paid_by_id : ℕ
  pub amount_minor_units : ℕ
  pub splits : List SplitAmount

pub record BalanceClient (Db : Type 0) : Type 0 where
  pub find_expense_rows : ℕ → Db → Result (List BalanceRow)
  pub find_settlement_rows : ℕ → Db → Result (List SettlementForBalance)

abbrev pub copied : SplitAmount → SplitAmount
copied split = record { user_id = split.user_id; amount_minor_units = split.amount_minor_units }

abbrev pub for_balance : BalanceRow → ExpenseForBalance
for_balance expense = record {
  paid_by_id = expense.paid_by_id;
  amount_minor_units = expense.amount_minor_units;
  splits = map copied expense.splits;
}

abbrev pub map_rows : Result (List BalanceRow) → Result (List ExpenseForBalance)
map_rows (ok rows) = ok (map for_balance rows)
map_rows (err e) = err e

module _ {Db : Type 0} (client : BalanceClient Db) where
  abbrev pub find_expenses_for_balances : ℕ → Db → Result (List ExpenseForBalance)
  find_expenses_for_balances group_id db = map_rows (client.find_expense_rows group_id db)

  abbrev pub find_settlements_for_balances : ℕ → Db → Result (List SettlementForBalance)
  find_settlements_for_balances group_id db = client.find_settlement_rows group_id db

-- Each row is that of a stored expense, with its splits in some order.
pub record Stands {Db : Type 0} (expenses : ExpenseClient Db) (db : Db) (row : BalanceRow)
    : Type 0 where
  pub id : ℕ
  pub expense : ExpenseWithDetails
  pub found : expenses.expense_of id db ≡ some expense
  pub mirrors : Mirrors expense row.amount_minor_units row.splits

pub record BalanceRules {Db : Type 0} (expenses : ExpenseClient Db) (client : BalanceClient Db)
    : Type 0 where
  pub rows_stand :
      (group_id : ℕ) (rows : List BalanceRow) (db : Db)
      → client.find_expense_rows group_id db ≡ ok rows
      → All (Stands expenses db) rows
