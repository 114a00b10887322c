-- ===== src/Expenses/Service.antt =====
-- The methods of `ExpenseService` (backend/src/modules/expenses/expense.service.ts), each a sequence
-- of repository calls over the world. `now` is the value of `new Date()`.
pub mod Create
pub mod Update
pub mod Access
use split_bill_app.Prelude.{ℕ, map, Option, includes, or_else}
use split_bill_app.Errors.{
  app, forbidden_error, not_found_error, group_not_found, not_group_member, payer_not_group_member,
  expense_not_found,
}
use split_bill_app.Effects.{
  Action, pure, lift, or_throw, require, ◌>>=◌, ◌>>◌, World, query, command, increment,
  expenses_created_total, expenses_updated_total, expenses_deleted_total,
}
use split_bill_app.Records.{Pagination}
use split_bill_app.Expenses.{ExpenseRepository}
use split_bill_app.Expenses.Splits.{create_splits}
use split_bill_app.Expenses.Requests.{
  CreateExpenseInput, UpdateExpenseInput, ExpenseDetailDto, ExpenseListPage, to_detail_dto,
  to_summary_dto, list_page, create_data, created_event, update_splits, update_data, updated_event,
  deleted_event,
}

module _ {Db : Type 0} (repository : ExpenseRepository Db) where
  open repository use {
    find_group_by_id, find_group_member_ids, create_expense_with_splits, find_expense_by_id,
    update_expense_with_splits, delete_expense_with_event, find_expenses_by_group_id,
  }

  unfoldable pub create_expense : ℕ → ℕ → CreateExpenseInput → Action (World Db) ExpenseDetailDto
  create_expense now requester_id input = do
    group ← query (find_group_by_id input.group_id)
    _ ← or_throw group (app (not_found_error group_not_found))
    member_ids ← query (find_group_member_ids input.group_id)
    require (includes member_ids requester_id) (app (forbidden_error not_group_member))
    require (includes member_ids input.payer_id) (app (forbidden_error payer_not_group_member))
    splits ←
        lift (create_splits input.split_type input.amount_minor_units input.participants member_ids)
    expense ← command (
        create_expense_with_splits (create_data now input splits)
          (created_event requester_id input))
    increment expenses_created_total
    pure (to_detail_dto expense)

  unfoldable pub assert_member_of_group : ℕ → ℕ → Action (World Db) (Unit {0})
  assert_member_of_group requester_id group_id = do
    member_ids ← query (find_group_member_ids group_id)
    require (includes member_ids requester_id) (app (forbidden_error not_group_member))

  unfoldable pub get_expense_by_id : ℕ → ℕ → Action (World Db) ExpenseDetailDto
  get_expense_by_id requester_id expense_id = do
    found ← query (find_expense_by_id expense_id)
    expense ← or_throw found (app (not_found_error expense_not_found))
    assert_member_of_group requester_id expense.group_id
    pure (to_detail_dto expense)

  unfoldable pub update_expense : ℕ → ℕ → UpdateExpenseInput → Action (World Db) ExpenseDetailDto
  update_expense requester_id expense_id input = do
    found ← query (find_expense_by_id expense_id)
    expense ← or_throw found (app (not_found_error expense_not_found))
    member_ids ← query (find_group_member_ids expense.group_id)
    require (includes member_ids requester_id) (app (forbidden_error not_group_member))
    require (includes member_ids (or_else input.payer_id expense.paid_by_id))
        (app (forbidden_error payer_not_group_member))
    splits ← lift (
        update_splits (or_else input.split_type expense.split_type)
          (or_else input.amount_minor_units expense.amount_minor_units) input.participants expense
          member_ids)
    updated ← command (
        update_expense_with_splits expense_id (update_data input expense splits)
          (updated_event requester_id input expense))
    increment expenses_updated_total
    pure (to_detail_dto updated)

  unfoldable pub delete_expense : ℕ → ℕ → Action (World Db) (Unit {0})
  unfolding assert_member_of_group
  delete_expense requester_id expense_id = do
    found ← query (find_expense_by_id expense_id)
    expense ← or_throw found (app (not_found_error expense_not_found))
    assert_member_of_group requester_id expense.group_id
    command (delete_expense_with_event expense_id (deleted_event requester_id expense))
    increment expenses_deleted_total

  unfoldable pub get_group_expenses : ℕ → ℕ → Option Pagination → Action (World Db) ExpenseListPage
  unfolding assert_member_of_group
  get_group_expenses requester_id group_id pagination = do
    group ← query (find_group_by_id group_id)
    _ ← or_throw group (app (not_found_error group_not_found))
    assert_member_of_group requester_id group_id
    found ← query (find_expenses_by_group_id group_id pagination)
    pure (list_page pagination (map to_summary_dto found.0) found.1)
