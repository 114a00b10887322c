-- ===== src/Expenses.antt =====
-- backend/src/modules/expenses: the data of an expense, the repository that the service is built
-- over, and the service (Expenses/Service.antt) with its laws.
pub mod Requests
pub mod Repository
pub mod Service
pub mod Ledger
pub mod Splits
mod Tests
use split_bill_app.Prelude.{ℕ, List, Option, String}
use split_bill_app.Effects.{Result}
use split_bill_app.Money.Split.{SplitAmount}
use split_bill_app.Records.{SafeUser, GroupRef, ActivityEventInput, Pagination}

pub data SplitType : Type 0 where
  equal exact : SplitType

-- A date is its time in milliseconds; `new Date(text)` of a validated text is taken as read.
pub record CreateExpenseData : Type 0 where
  pub group_id : ℕ
  pub paid_by_id : ℕ
  pub description : String
  pub amount_minor_units : ℕ
  pub currency_code : String
  pub split_type : SplitType
  pub expense_date : ℕ
  pub splits : List SplitAmount

pub record UpdateExpenseData : Type 0 where
  pub paid_by_id : ℕ
  pub description : String
  pub amount_minor_units : ℕ
  pub split_type : SplitType
  pub expense_date : ℕ
  pub splits : List SplitAmount

-- A row of `ExpenseSplit` with its user.
pub record SplitRow : Type 0 where
  pub id : ℕ
  pub user_id : ℕ
  pub amount_minor_units : ℕ
  pub user : SafeUser

-- The columns of `Expense` with its payer.
pub record ExpenseRow : Type 0 where
  pub id : ℕ
  pub group_id : ℕ
  pub paid_by_id : ℕ
  pub description : String
  pub amount_minor_units : ℕ
  pub currency_code : String
  pub split_type : SplitType
  pub expense_date : ℕ
  pub created_at : ℕ
  pub updated_at : ℕ
  pub payer : SafeUser

pub record ExpenseWithDetails : Type 0 where
  pub expense : ExpenseRow
  pub open expense use *
  pub splits : List SplitRow

pub record ExpenseWithSummary : Type 0 where
  pub expense : ExpenseRow
  pub open expense use *
  pub split_count : ℕ

-- `ExpenseRepository`, over a store that it alone knows. A method that only reads returns no store.
pub record ExpenseRepository (Db : Type 0) : Type 0 where
  pub find_group_by_id : ℕ → Db → Result (Option GroupRef)
  pub find_group_member_ids : ℕ → Db → Result (List ℕ)
  pub create_expense_with_splits :
      CreateExpenseData → ActivityEventInput → Db → Result ExpenseWithDetails × Db
  pub find_expense_by_id : ℕ → Db → Result (Option ExpenseWithDetails)
  pub update_expense_with_splits :
      ℕ → UpdateExpenseData → ActivityEventInput → Db → Result ExpenseWithDetails × Db
  pub delete_expense_with_event : ℕ → ActivityEventInput → Db → Result (Unit {0}) × Db
  pub find_expenses_by_group_id :
      ℕ → Option Pagination → Db → Result (List ExpenseWithSummary × Option ℕ)
