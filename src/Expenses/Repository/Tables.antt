-- ===== src/Expenses/Repository/Tables.antt =====
-- The Prisma client as far as backend/src/modules/expenses/expense.repository.ts uses it: a
-- parameter, with what Prisma documents of these calls.
use split_bill_app.Prelude.{
  ℕ, ◌≡◌, ◌≢◌, List, Option, none, some, String, Perm, Bool, ◌++◌, if◌then◌else◌,
}
use split_bill_app.Effects.{Result, ok, Action}
use split_bill_app.Records.{GroupRef, ActivityEventData}
use split_bill_app.Money.Split.{SplitAmount}
use split_bill_app.Expenses.{SplitType, CreateExpenseData, ExpenseRow, ExpenseWithDetails}
use split_bill_app.Expenses.Requests.{stored_splits}

-- What `findMany` returns: all rows, or `skip` and `take`.
pub data Slice : Type 0 where
  whole : Slice
  slice : ℕ → ℕ → Slice

-- A row of the list with `_count.splits`.
pub record SummaryRow : Type 0 where
  pub expense : ExpenseRow
  pub count : ℕ

-- The columns of a deleted expense that are read.
pub record DeletedExpense : Type 0 where
  pub group_id : ℕ
  pub amount_minor_units : ℕ
  pub currency_code : String

-- The nested write of the splits in an update: `deleteMany: {}` or nothing, and `create`.
pub record SplitsWrite : Type 0 where
  pub delete_all : Bool
  pub create : List SplitAmount

-- The `data` with which an expense is updated.
pub record ExpenseUpdate : Type 0 where
  pub paid_by_id : ℕ
  pub description : String
  pub amount_minor_units : ℕ
  pub split_type : SplitType
  pub expense_date : ℕ
  pub splits : SplitsWrite

abbrev pub splits_after : SplitsWrite → List SplitAmount → List SplitAmount
splits_after w old = if w.delete_all then w.create else old ++ w.create

pub record ExpenseClient (Db : Type 0) : Type 0 where
  pub find_group : ℕ → Db → Result (Option GroupRef)
  pub find_members : ℕ → Db → Result (List ℕ)
  pub create_expense_row : CreateExpenseData → Action Db ExpenseWithDetails
  pub find_expense : ℕ → Db → Result (Option ExpenseWithDetails)
  pub update_expense_row : ℕ → ExpenseUpdate → Action Db ExpenseWithDetails
  pub delete_expense_row : ℕ → Action Db DeletedExpense
  pub create_activity_event : ActivityEventData → Action Db (Unit {0})
  pub find_expenses : ℕ → Slice → Db → Result (List SummaryRow)
  pub count_expenses : ℕ → Db → Result ℕ
  -- The expense under an id in a state, with its splits.
  pub expense_of : ℕ → Db → Option ExpenseWithDetails

-- The row has the amount and, in some order, the splits that were written.
pub record Mirrors (row : ExpenseWithDetails) (amount : ℕ) (splits : List SplitAmount)
    : Type 0 where
  pub same_amount : row.amount_minor_units ≡ amount
  pub same_splits : Perm (stored_splits row) splits

pub record ExpenseRules {Db : Type 0} (client : ExpenseClient Db) : Type 0 where
  pub find_reads :
      (id : ℕ) (o : Option ExpenseWithDetails) (db : Db)
      → client.find_expense id db ≡ ok o
      → o ≡ client.expense_of id db
  -- A nested create writes the row with all its splits.
  pub created :
      (d : CreateExpenseData) (e : ExpenseWithDetails) (db db' : Db)
      → client.create_expense_row d db ≡ (ok e, db')
      → (row : ExpenseWithDetails) × (client.expense_of e.id db' ≡ some row)
        × Mirrors row d.amount_minor_units d.splits
  pub created_keeps :
      (d : CreateExpenseData) (e : ExpenseWithDetails) (db db' : Db) (id : ℕ)
      → client.create_expense_row d db ≡ (ok e, db')
      → id ≢ e.id
      → client.expense_of id db' ≡ client.expense_of id db
  -- An update finds its row, and carries out the nested write.
  pub updated :
      (id : ℕ) (d : ExpenseUpdate) (e : ExpenseWithDetails) (db db' : Db)
      → client.update_expense_row id d db ≡ (ok e, db')
      → (old row : ExpenseWithDetails) × (client.expense_of id db ≡ some old)
        × (client.expense_of id db' ≡ some row)
        × Mirrors row d.amount_minor_units (splits_after d.splits (stored_splits old))
  pub updated_keeps :
      (id : ℕ) (d : ExpenseUpdate) (e : ExpenseWithDetails) (db db' : Db) (other : ℕ)
      → client.update_expense_row id d db ≡ (ok e, db')
      → other ≢ id
      → client.expense_of other db' ≡ client.expense_of other db
  -- The splits of a deleted expense go with it (`onDelete: Cascade`).
  pub deleted :
      (id : ℕ) (e : DeletedExpense) (db db' : Db)
      → client.delete_expense_row id db ≡ (ok e, db')
      → client.expense_of id db' ≡ none
  pub deleted_keeps :
      (id : ℕ) (e : DeletedExpense) (db db' : Db) (other : ℕ)
      → client.delete_expense_row id db ≡ (ok e, db')
      → other ≢ id
      → client.expense_of other db' ≡ client.expense_of other db
  pub event_keeps :
      (d : ActivityEventData) (db db' : Db) (id : ℕ)
      → client.create_activity_event d db ≡ (ok tt, db')
      → client.expense_of id db' ≡ client.expense_of id db
