-- ===== src/Expenses/Service/Access.antt =====
-- Who may read, change and delete an expense.
use split_bill_app.Prelude.{
  ℕ, ◌≡◌, ◌⊎◌, inl, inr, Bool, Bool-cases, List, ◌∷◌, none, some, includes, true, false, arith,
}
use split_bill_app.Errors.{Failure, app, not_found_error, expense_not_found}
use split_bill_app.Effects.{Result, ok, err, World, expenses_deleted_total}
use split_bill_app.Effects.Inversion.{
  Write-cases, Result-cases, KeepsOnFailure, ReadsOnly, RollsBack, keeps_rules, keeps_state,
}
use split_bill_app.Records.{ActivityEventInput}
use split_bill_app.Expenses.{ExpenseRepository, ExpenseWithDetails}
use split_bill_app.Expenses.Requests.{UpdateExpenseInput, deleted_event}
use split_bill_app.Expenses.Service.{
  assert_member_of_group, get_expense_by_id, update_expense, delete_expense,
}

-- A call about one expense.
pub data ExpenseCall : Type 0 where
  read delete : ExpenseCall
  changes : UpdateExpenseInput → ExpenseCall

abbrev returned : {A S : Type 0} → Result A × S → Bool × S
returned (ok a, s) = (true, s)
returned (err e, s) = (false, s)

module _ {Db : Type 0} (repository : ExpenseRepository Db) (requester_id expense_id : ℕ)
    (w : World Db) where
  -- Has the call returned, and which state has it left?
  abbrev pub run_call : ExpenseCall → Bool × World Db
  run_call read = returned (get_expense_by_id repository requester_id expense_id w)
  run_call delete = returned (delete_expense repository requester_id expense_id w)
  run_call (changes input) = returned (update_expense repository requester_id expense_id input w)

  pub record IsInsider : Type 0 where
    pub expense : ExpenseWithDetails
    pub member_ids : List ℕ
    pub found : repository.find_expense_by_id expense_id w.db ≡ ok (some expense)
    pub members : repository.find_group_member_ids expense.group_id w.db ≡ ok member_ids
    pub is_member : includes member_ids requester_id ≡ true

  outsider :
      (c : ExpenseCall) (e : ExpenseWithDetails) (ms : List ℕ)
      → repository.find_expense_by_id expense_id w.db ≡ ok (some e)
      → repository.find_group_member_ids e.group_id w.db ≡ ok ms
      → includes ms requester_id ≡ false
      → run_call c ≡ (false, w)
  unfolding get_expense_by_id assert_member_of_group update_expense delete_expense
  outsider read e ms found members outside = ground arith
  outsider delete e ms found members outside = ground arith
  outsider (changes input) e ms found members outside = ground arith

  members_unread :
      (c : ExpenseCall) (e : ExpenseWithDetails) (x : Failure)
      → repository.find_expense_by_id expense_id w.db ≡ ok (some e)
      → repository.find_group_member_ids e.group_id w.db ≡ err x
      → run_call c ≡ (false, w)
  unfolding get_expense_by_id assert_member_of_group update_expense delete_expense
  members_unread read e x found failed = ground arith
  members_unread delete e x found failed = ground arith
  members_unread (changes input) e x found failed = ground arith

  not_found :
      (c : ExpenseCall)
      → repository.find_expense_by_id expense_id w.db ≡ ok none
      → run_call c ≡ (false, w)
  unfolding get_expense_by_id update_expense delete_expense
  not_found read h = ground arith
  not_found delete h = ground arith
  not_found (changes input) h = ground arith

  unread :
      (c : ExpenseCall) (x : Failure)
      → repository.find_expense_by_id expense_id w.db ≡ err x
      → run_call c ≡ (false, w)
  unfolding get_expense_by_id update_expense delete_expense
  unread read x h = ground arith
  unread delete x h = ground arith
  unread (changes input) x h = ground arith

  known :
      (c : ExpenseCall) (e : ExpenseWithDetails)
      → repository.find_expense_by_id expense_id w.db ≡ ok (some e)
      → IsInsider ⊎ (run_call c ≡ (false, w))
  known c e found = elim (Result-cases (repository.find_group_member_ids e.group_id w.db)) [
    | inr (x, failed) ↦ inr (members_unread c e x found failed)
    | inl (ms, read_members) ↦ elim (Bool-cases (includes ms requester_id)) [
      | inl inside ↦ inl (record {
        expense = e;
        member_ids = ms;
        found = found;
        members = read_members;
        is_member = inside;
      })
      | inr outside ↦ inr (outsider c e ms found read_members outside)
    ]
  ]

  -- Only members have access to an expense: unless the requester is a member of the group of the
  -- stored expense, a call that reads, changes or deletes it throws and leaves the store and the
  -- counters as they were, whatever else it meets.
  pub only_members_access : (c : ExpenseCall) → IsInsider ⊎ (run_call c ≡ (false, w))
  only_members_access c = elim (Result-cases (repository.find_expense_by_id expense_id w.db)) [
    | inr (x, failed) ↦ inr (unread c x failed)
    | inl (none, missing) ↦ inr (not_found c missing)
    | inl (some e, found) ↦ known c e found
  ]

  -- An unknown expense is answered by EXPENSE_NOT_FOUND, whoever asks.
  pub unknown_expense :
      (input : UpdateExpenseInput)
      → repository.find_expense_by_id expense_id w.db ≡ ok none
      → (get_expense_by_id repository requester_id expense_id w
          ≡ (err (app (not_found_error expense_not_found)), w))
        × (update_expense repository requester_id expense_id input w
            ≡ (err (app (not_found_error expense_not_found)), w))
        × (delete_expense repository requester_id expense_id w
            ≡ (err (app (not_found_error expense_not_found)), w))
  unfolding get_expense_by_id update_expense delete_expense
  unknown_expense input missing = (ground arith, ground arith, ground arith)

  pub record Deleted (w' : World Db) : Type 0 where
    pub expense : ExpenseWithDetails
    pub member_ids : List ℕ
    pub expense_found : repository.find_expense_by_id expense_id w.db ≡ ok (some expense)
    pub members_found : repository.find_group_member_ids expense.group_id w.db ≡ ok member_ids
    pub requester_is_member : includes member_ids requester_id ≡ true
    pub written :
        repository.delete_expense_with_event expense_id (deleted_event requester_id expense) w.db
        ≡ (ok tt, w'.db)
    pub counted : w'.metrics ≡ expenses_deleted_total ∷ w.metrics

  module _ (w' : World Db)
      (h : delete_expense repository requester_id expense_id w ≡ (ok tt, w')) where
    expense_known :
        (e : ExpenseWithDetails) × (repository.find_expense_by_id expense_id w.db ≡ ok (some e))
    unfolding delete_expense
    expense_known = ground arith

    module _ (e : ExpenseWithDetails)
        (found : repository.find_expense_by_id expense_id w.db ≡ ok (some e)) where
      members_known : (ms : List ℕ) × (repository.find_group_member_ids e.group_id w.db ≡ ok ms)
      unfolding delete_expense
      members_known = ground arith

      deleted_lem :
          (ms : List ℕ) → repository.find_group_member_ids e.group_id w.db ≡ ok ms → Deleted w'
      unfolding delete_expense
      deleted_lem ms members =
          let write =
            repository.delete_expense_with_event expense_id (deleted_event requester_id e) w.db in
          elim (Write-cases write) [
            | inl (u, db', written) ↦ record {
              expense = e;
              member_ids = ms;
              expense_found = found;
              members_found = members;
              requester_is_member = ground arith;
              written = ground arith;
              counted = ground arith;
            }
            | inr (x, db', failed) ↦ absurd (ground arith)
          ]

  -- If `deleteExpense` returns, a member of the group has asked for it, and the expense was deleted
  -- together with the event that names its description.
  pub delete_expense-Deleted :
      (w' : World Db)
      → delete_expense repository requester_id expense_id w ≡ (ok tt, w')
      → Deleted w'
  delete_expense-Deleted w' h =
      let (e, found) = expense_known w' h in
      let (ms, members) = members_known w' h e found in deleted_lem w' h e found ms members

assert_member_of_group-ReadsOnly :
    {Db : Type 0} (repository : ExpenseRepository Db) (requester_id group_id : ℕ)
    → ReadsOnly (assert_member_of_group repository requester_id group_id)
unfolding assert_member_of_group ReadsOnly
assert_member_of_group-ReadsOnly repository requester_id group_id w = ground arith

delete_expense-KeepsOnFailure :
    {Db : Type 0} (repository : ExpenseRepository Db) (requester_id expense_id : ℕ)
    → ((a : ActivityEventInput) → RollsBack (repository.delete_expense_with_event expense_id a))
    → KeepsOnFailure (delete_expense repository requester_id expense_id)
unfolding delete_expense
delete_expense-KeepsOnFailure repository requester_id expense_id back =
    search (keeps_rules, assert_member_of_group-ReadsOnly) depth 15

-- A refused or failed deletion changes nothing, if the transaction of the repository rolls back.
pub delete_expense_failed :
    {Db : Type 0} (repository : ExpenseRepository Db) (requester_id expense_id : ℕ)
    (w w' : World Db) (e : Failure)
    → ((a : ActivityEventInput) → RollsBack (repository.delete_expense_with_event expense_id a))
    → delete_expense repository requester_id expense_id w ≡ (err e, w')
    → w' ≡ w
delete_expense_failed repository requester_id expense_id w w' e back =
    keeps_state _ (delete_expense-KeepsOnFailure repository requester_id expense_id back) w w' e
