-- ===== src/Expenses/Repository.antt =====
-- `ExpenseRepository` (backend/src/modules/expenses/expense.repository.ts) over the calls of the
-- Prisma client that it makes, as the repository that the service is built over. `now` is the value
-- of `new Date()`.
pub mod Laws
pub mod Tables
use split_bill_app.Prelude.{ℕ, ◌-◌, ◌*◌, List, map, Option, none, some, true}
use split_bill_app.Effects.{Result, ok, err, Action, pure, ◌>>=◌, ◌>>◌}
use split_bill_app.Records.{ActivityEventInput, ActivityEventData, Pagination}
use split_bill_app.Database.{Transactions}
use split_bill_app.Expenses.{
  CreateExpenseData, UpdateExpenseData, ExpenseWithDetails, ExpenseWithSummary, ExpenseRepository,
}
use Tables.{ExpenseClient, Slice, whole, slice, SummaryRow, DeletedExpense, ExpenseUpdate}

abbrev pub expense_event : ExpenseWithDetails → ActivityEventInput → ℕ → ActivityEventData
expense_event expense activity occurred_at = record {
  group_id = expense.group_id;
  event = activity;
  amount_minor_units = some expense.amount_minor_units;
  currency_code = some expense.currency_code;
  occurred_at = occurred_at;
}

abbrev pub deletion_event : DeletedExpense → ActivityEventInput → ℕ → ActivityEventData
deletion_event expense activity occurred_at = record {
  group_id = expense.group_id;
  event = activity;
  amount_minor_units = some expense.amount_minor_units;
  currency_code = some expense.currency_code;
  occurred_at = occurred_at;
}

-- The old splits are deleted and the new ones created.
abbrev pub update_write : UpdateExpenseData → ExpenseUpdate
update_write d = record {
  paid_by_id = d.paid_by_id;
  description = d.description;
  amount_minor_units = d.amount_minor_units;
  split_type = d.split_type;
  expense_date = d.expense_date;
  splits = record { delete_all = true; create = d.splits };
}

abbrev pub map_row : SummaryRow → ExpenseWithSummary
map_row row = record { expense = row.expense; split_count = row.count }

-- `Promise.all` of the page and the total.
abbrev pub page_of :
    Result (List SummaryRow) → Result ℕ → Result (List ExpenseWithSummary × Option ℕ)
page_of (ok rows) (ok total) = ok (map map_row rows, some total)
page_of (ok rows) (err e) = err e
page_of (err e) total = err e

abbrev pub list_of : Result (List SummaryRow) → Result (List ExpenseWithSummary × Option ℕ)
list_of (ok rows) = ok (map map_row rows, none)
list_of (err e) = err e

module _ {Db : Type 0} (client : ExpenseClient Db) (transactions : Transactions Db) (now : ℕ) where
  open client use {
    find_group, find_members, create_expense_row, find_expense, update_expense_row,
    delete_expense_row, create_activity_event, find_expenses, count_expenses,
  }
  open transactions use {transaction}

  -- The callbacks of the three transactions.
  unfoldable pub creating : CreateExpenseData → ActivityEventInput → Action Db ExpenseWithDetails
  creating d activity = do
    expense ← create_expense_row d
    create_activity_event (expense_event expense activity expense.created_at)
    pure expense

  unfoldable pub updating :
      ℕ → UpdateExpenseData → ActivityEventInput → Action Db ExpenseWithDetails
  updating expense_id d activity = do
    expense ← update_expense_row expense_id (update_write d)
    create_activity_event (expense_event expense activity now)
    pure expense

  unfoldable pub deleting : ℕ → ActivityEventInput → Action Db (Unit {0})
  deleting expense_id activity = do
    expense ← delete_expense_row expense_id
    create_activity_event (deletion_event expense activity now)

  abbrev pub find_expenses_by_group_id :
      ℕ → Option Pagination → Db → Result (List ExpenseWithSummary × Option ℕ)
  find_expenses_by_group_id group_id none db = list_of (find_expenses group_id whole db)
  find_expenses_by_group_id group_id (some p) db =
      page_of (find_expenses group_id (slice ((p.page - 1) * p.limit) p.limit) db)
        (count_expenses group_id db)

  abbrev pub expense_repository : ExpenseRepository Db
  expense_repository = record {
    find_group_by_id = find_group;
    find_group_member_ids = find_members;
    create_expense_with_splits = λ d activity. transaction (creating d activity);
    find_expense_by_id = find_expense;
    update_expense_with_splits = λ id d activity. transaction (updating id d activity);
    delete_expense_with_event = λ id activity. transaction (deleting id activity);
    find_expenses_by_group_id = find_expenses_by_group_id;
  }
