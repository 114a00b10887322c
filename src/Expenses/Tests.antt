-- ===== src/Expenses/Tests.antt =====
-- The service of expenses on a small repository: runs, and the laws applied to them.
use split_bill_app.Prelude.{
  false, ◌⊎◌, All, Distinct, includes, true, ℕ, suc, ◌≡◌, refl, ◌↔◌, List, [], ◌∷◌, Option, none,
  some, ◌==◌, if◌then◌else◌, arith,
}
use split_bill_app.Errors.{
  Failure, app, forbidden_error, not_found_error, not_group_member, expense_not_found,
}
use split_bill_app.Effects.{
  ok, err, World, expenses_created_total, expenses_updated_total, expenses_deleted_total,
}
use split_bill_app.Records.{SafeUser, GroupRef}
use split_bill_app.Money.Split.{SplitAmount, calculate_equal_splits, sum_split_amounts}
use split_bill_app.Expenses.{ExpenseRepository, ExpenseWithDetails, equal, exact}
use split_bill_app.Expenses.Splits.{participant_ids, Participant, create_splits, reconcile_splits}
use split_bill_app.Expenses.Splits.Laws.{AreExpected, reconcile_splits-eq-ok_iff}
use split_bill_app.Expenses.Requests.{
  CreateExpenseInput, UpdateExpenseInput, to_detail_dto, update_splits,
}
use split_bill_app.Expenses.Service.{
  create_expense, update_expense, delete_expense, get_expense_by_id, assert_member_of_group,
}
use split_bill_app.Expenses.Service.Create.{Created, create_expense-Created}
use split_bill_app.Expenses.Service.Update.{Updated, update_expense-Updated}
use split_bill_app.Expenses.Service.Access.{
  changes, IsInsider, run_call, only_members_access, unknown_expense,
}

abbrev anna : SafeUser
anna = record { id = 1; name = "Anna"; email = "anna@example.org" }

abbrev home : GroupRef
home = record { id = 7; name = "Home"; created_by_id = 1 }

abbrev share : ℕ → ℕ → SplitAmount
share user_id amount = record { user_id = user_id; amount_minor_units = amount }

abbrev dinner : ExpenseWithDetails
dinner = record {
  expense = record {
    id = 40;
    group_id = 7;
    paid_by_id = 1;
    description = "Dinner";
    amount_minor_units = 101;
    currency_code = "PKR";
    split_type = equal;
    expense_date = 5;
    created_at = 5;
    updated_at = 5;
    payer = anna;
  };
  splits =
      record { id = 1; user_id = 1; amount_minor_units = 51; user = anna }
      ∷ record { id = 2; user_id = 2; amount_minor_units = 50; user = anna }
      ∷ [];
}

-- One group with the members 1 and 2 and the expense 40; the store counts the writes.
abbrev found_expense : ℕ → Option ExpenseWithDetails
found_expense id = if id == 40 then some dinner else none

abbrev small : ExpenseRepository ℕ
small = record {
  find_group_by_id = λ id db. ok (some home);
  find_group_member_ids = λ id db. ok (1 ∷ 2 ∷ []);
  create_expense_with_splits = λ d a db. (ok dinner, suc db);
  find_expense_by_id = λ id db. ok (found_expense id);
  update_expense_with_splits = λ id d a db. (ok dinner, suc db);
  delete_expense_with_event = λ id a db. (ok tt, suc db);
  find_expenses_by_group_id = λ id p db. ok ([], none);
}

abbrev start : World ℕ
start = record { db = 0; metrics = [] }

abbrev both : List Participant
both =
    record { user_id = 1; amount_minor_units = none }
    ∷ record { user_id = 2; amount_minor_units = none }
    ∷ []

abbrev given : List Participant
given =
    record { user_id = 1; amount_minor_units = some 60 }
    ∷ record { user_id = 2; amount_minor_units = some 41 }
    ∷ []

abbrev request : CreateExpenseInput
request = record {
  group_id = 7;
  description = "Dinner";
  amount_minor_units = 101;
  payer_id = 1;
  split_type = equal;
  participants = both;
  expense_date = none;
}

abbrev change : UpdateExpenseInput
change = record {
  description = none;
  amount_minor_units = some 99;
  payer_id = some 2;
  split_type = none;
  participants = none;
  expense_date = none;
}

created_run :
    create_expense small 5 2 request start
    ≡ (ok (to_detail_dto dinner), record { db = 1; metrics = expenses_created_total ∷ [] })
unfolding create_expense create_splits calculate_equal_splits
created_run = refl

create_expense-Created_example :
    Created small 5 2 request start
      (to_detail_dto dinner)
      (record { db = 1; metrics = expenses_created_total ∷ [] })
create_expense-Created_example =
    create_expense-Created small 5 2 request start (to_detail_dto dinner)
      (record { db = 1; metrics = expenses_created_total ∷ [] }) (λ e. ground arith) created_run

updated_run :
    update_expense small 2 40 change start
    ≡ (ok (to_detail_dto dinner), record { db = 1; metrics = expenses_updated_total ∷ [] })
unfolding update_expense update_splits calculate_equal_splits
updated_run = refl

update_expense-Updated_example :
    Updated small 2 40 change start
      (to_detail_dto dinner)
      (record { db = 1; metrics = expenses_updated_total ∷ [] })
update_expense-Updated_example =
    update_expense-Updated small 2 40 change start (to_detail_dto dinner)
      (record { db = 1; metrics = expenses_updated_total ∷ [] }) (λ e. ground arith)
      (λ e found empty. ground arith) updated_run

deleted_run :
    delete_expense small 2 40 start
    ≡ (ok tt, record { db = 1; metrics = expenses_deleted_total ∷ [] })
unfolding delete_expense assert_member_of_group
deleted_run = refl

-- User 3 is no member.
refused : Failure
refused = app (forbidden_error not_group_member)

create_refused : create_expense small 5 3 request start ≡ (err refused, start)
unfolding create_expense refused
create_refused = refl

unknown_expense_example :
    (get_expense_by_id small 1 41 start ≡ (err (app (not_found_error expense_not_found)), start))
    × (update_expense small 1 41 change start
        ≡ (err (app (not_found_error expense_not_found)), start))
    × (delete_expense small 1 41 start ≡ (err (app (not_found_error expense_not_found)), start))
unknown_expense_example = unknown_expense small 1 41 start change refl

reconciled_run : reconcile_splits exact 101 given (1 ∷ 2 ∷ []) ≡ ok (share 1 60 ∷ share 2 41 ∷ [])
unfolding reconcile_splits sum_split_amounts
reconciled_run = refl

reconcile_splits-eq-ok_iff_example :
    (reconcile_splits exact 101 given (1 ∷ 2 ∷ []) ≡ ok (share 1 60 ∷ share 2 41 ∷ [])) ↔ (
      Distinct (participant_ids given)
      × All (λ u. includes (1 ∷ 2 ∷ []) u ≡ true) (participant_ids given)
      × AreExpected exact 101 given (share 1 60 ∷ share 2 41 ∷ []))
reconcile_splits-eq-ok_iff_example =
    reconcile_splits-eq-ok_iff exact 101 given (1 ∷ 2 ∷ []) (share 1 60 ∷ share 2 41 ∷ [])

only_members_access_example :
    IsInsider small 3 40 start ⊎ (run_call small 3 40 start (changes change) ≡ (false, start))
only_members_access_example = only_members_access small 3 40 start (changes change)
