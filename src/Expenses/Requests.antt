-- ===== src/Expenses/Requests.antt =====
-- The requests and answers of `ExpenseService` (backend/src/modules/expenses/expense.service.ts), and
-- the data that its methods hand to the repository.
use split_bill_app.Prelude.{
  ℕ, List, map, Option, none, some, or_else, String, ◌==◌, not, if◌then◌else◌,
}
use Prim.Native.String
use split_bill_app.Errors.{app, bad_request_error, split_total_mismatch}
use split_bill_app.Effects.{Result, ok, err}
use split_bill_app.Records.{
  SafeUser, ActivityEventInput, expense_added, expense_updated, expense_deleted, Pagination, to_num,
}
use split_bill_app.Money.Split.{SplitAmount, calculate_equal_splits, sum_split_amounts}
use split_bill_app.Expenses.{
  SplitType, equal, exact, CreateExpenseData, UpdateExpenseData, SplitRow, ExpenseRow,
  ExpenseWithDetails, ExpenseWithSummary,
}
use split_bill_app.Expenses.Splits.{Participant, reconcile_splits}

pub record CreateExpenseInput : Type 0 where
  pub group_id : ℕ
  pub description : String
  pub amount_minor_units : ℕ
  pub payer_id : ℕ
  pub split_type : SplitType
  pub participants : List Participant
  pub expense_date : Option ℕ

pub record UpdateExpenseInput : Type 0 where
  pub description : Option String
  pub amount_minor_units : Option ℕ
  pub payer_id : Option ℕ
  pub split_type : Option SplitType
  pub participants : Option (List Participant)
  pub expense_date : Option ℕ

pub record SplitDto : Type 0 where
  pub id : ℕ
  pub user_id : ℕ
  pub amount_minor_units : ℕ
  pub user : SafeUser

-- `ExpenseDetailDto`: the columns of the row, its amount as a number, and the splits.
pub record ExpenseDetailDto : Type 0 where
  pub expense : ExpenseRow
  pub splits : List SplitDto

pub record ExpenseSummaryDto : Type 0 where
  pub expense : ExpenseRow
  pub split_count : ℕ

pub record ExpenseListPage : Type 0 where
  pub expenses : List ExpenseSummaryDto
  pub pagination : Option (Pagination × Option ℕ)

abbrev pub to_number_row : ExpenseRow → ExpenseRow
to_number_row expense = record expense { amount_minor_units = to_num expense.amount_minor_units }

abbrev pub to_split_dto : SplitRow → SplitDto
to_split_dto split = record {
  id = split.id;
  user_id = split.user_id;
  amount_minor_units = to_num split.amount_minor_units;
  user = split.user;
}

unfoldable pub to_detail_dto : ExpenseWithDetails → ExpenseDetailDto
to_detail_dto expense = record {
  expense = to_number_row expense.expense;
  splits = map to_split_dto expense.splits;
}

unfoldable pub to_summary_dto : ExpenseWithSummary → ExpenseSummaryDto
to_summary_dto expense = record {
  expense = to_number_row expense.expense;
  split_count = expense.split_count;
}

-- The stored splits, as the service hands them back to the repository.
abbrev pub stored_splits : ExpenseWithDetails → List SplitAmount
stored_splits expense =
    map (λ s. record { user_id = s.user_id; amount_minor_units = s.amount_minor_units })
      expense.splits

abbrev pub quoted : String → String → String
quoted text name = String.◌++◌ text (String.◌++◌ name "\"")

-- A list with its page; without a page the total is not reported.
abbrev pub list_page : Option Pagination → List ExpenseSummaryDto → Option ℕ → ExpenseListPage
list_page none list total = record { expenses = list; pagination = none }
list_page (some p) list total = record { expenses = list; pagination = some (p, total) }

abbrev pub create_data : ℕ → CreateExpenseInput → List SplitAmount → CreateExpenseData
create_data now input splits = record {
  group_id = input.group_id;
  paid_by_id = input.payer_id;
  description = input.description;
  amount_minor_units = input.amount_minor_units;
  currency_code = "PKR";
  split_type = input.split_type;
  expense_date = or_else input.expense_date now;
  splits = splits;
}

abbrev pub created_event : ℕ → CreateExpenseInput → ActivityEventInput
created_event requester_id input = record {
  user_id = requester_id;
  type = expense_added;
  message = quoted "added the expense \"" input.description;
}

-- The splits of an update: those of the new participants; without any, the stored ones, which an
-- EXACT expense must still add up, and among whom an EQUAL one is divided again.
unfoldable pub update_splits :
    SplitType
    → ℕ
    → Option (List Participant)
    → ExpenseWithDetails
    → List ℕ
    → Result (List SplitAmount)
update_splits split_type total (some participants) expense member_ids =
    reconcile_splits split_type total participants member_ids
update_splits exact total none expense member_ids =
    if not (sum_split_amounts (stored_splits expense) == total)
    then err (app (bad_request_error split_total_mismatch))
    else ok (stored_splits expense)
update_splits equal total none expense member_ids =
    ok (calculate_equal_splits total (map (λ s. s.user_id) expense.splits))

abbrev pub update_data :
    UpdateExpenseInput → ExpenseWithDetails → List SplitAmount → UpdateExpenseData
update_data input expense splits = record {
  paid_by_id = or_else input.payer_id expense.paid_by_id;
  description = or_else input.description expense.description;
  amount_minor_units = or_else input.amount_minor_units expense.amount_minor_units;
  split_type = or_else input.split_type expense.split_type;
  expense_date = or_else input.expense_date expense.expense_date;
  splits = splits;
}

abbrev pub updated_event : ℕ → UpdateExpenseInput → ExpenseWithDetails → ActivityEventInput
updated_event requester_id input expense = record {
  user_id = requester_id;
  type = expense_updated;
  message = quoted "updated the expense \"" (or_else input.description expense.description);
}

abbrev pub deleted_event : ℕ → ExpenseWithDetails → ActivityEventInput
deleted_event requester_id expense = record {
  user_id = requester_id;
  type = expense_deleted;
  message = quoted "deleted the expense \"" expense.description;
}
