-- ===== src/Expenses/Service/Update.antt =====
-- What `updateExpense` has checked and written when it returns.
use split_bill_app.Prelude.{
  ℕ, ◌≡◌, ◌≢◌, refl, inl, inr, List, [], ◌∷◌, map, Option, none, some, includes, true, or_else, ap,
  arith,
}
use split_bill_app.Effects.{ok, err, World, expenses_updated_total}
use split_bill_app.Effects.Inversion.{
  Write-cases, KeepsOnFailure, RollsBack, keeps_rules, keeps_state,
}
use split_bill_app.Errors.{Failure}
use split_bill_app.Records.{ActivityEventInput}
use split_bill_app.Money.Split.{SplitAmount, calculate_equal_splits, sum_split_amounts}
use split_bill_app.Money.Split.Laws.{sum_split_amounts-calculate_equal_splits}
use split_bill_app.Expenses.{
  ExpenseRepository, ExpenseWithDetails, UpdateExpenseData, SplitType, equal, exact, SplitRow,
}
use split_bill_app.Expenses.Splits.{Participant}
use split_bill_app.Expenses.Splits.Laws.{reconcile_splits-IsReconciled}
use split_bill_app.Expenses.Requests.{
  UpdateExpenseInput, ExpenseDetailDto, to_detail_dto, update_splits, update_data, updated_event,
}
use split_bill_app.Expenses.Service.{update_expense}

rows_nonempty : (rows : List SplitRow) → rows ≢ [] → map (λ s. s.user_id) rows ≢ []
rows_nonempty [] h = absurd (h refl)
rows_nonempty (r ∷ rs) h = cc

-- Whatever an update stores adds up to the new total, as long as there is a participant.
pub sum-update_splits :
    (t : SplitType) (total : ℕ) (ps : Option (List Participant)) (expense : ExpenseWithDetails)
    (member_ids : List ℕ) (splits : List SplitAmount)
    → ps ≢ some []
    → expense.splits ≢ []
    → update_splits t total ps expense member_ids ≡ ok splits
    → sum_split_amounts splits ≡ total
unfolding update_splits
sum-update_splits t total (some ps) expense ms splits h k e =
    (reconcile_splits-IsReconciled t total ps ms splits (λ none_left. h (ap some none_left))
      e).0.adds_up
sum-update_splits exact total none expense ms splits h k e = ground arith
sum-update_splits equal total none expense ms splits h k e =
    let made : calculate_equal_splits total (map (λ s. s.user_id) expense.splits) ≡ splits =
      ground arith in
    rw (← made) (sum_split_amounts-calculate_equal_splits total _ (rows_nonempty expense.splits k))

abbrev pub next_total : UpdateExpenseInput → ExpenseWithDetails → ℕ
next_total input expense = or_else input.amount_minor_units expense.amount_minor_units

abbrev pub next_payer : UpdateExpenseInput → ExpenseWithDetails → ℕ
next_payer input expense = or_else input.payer_id expense.paid_by_id

abbrev pub next_type : UpdateExpenseInput → ExpenseWithDetails → SplitType
next_type input expense = or_else input.split_type expense.split_type

module _ {Db : Type 0} (repository : ExpenseRepository Db) (requester_id expense_id : ℕ)
    (input : UpdateExpenseInput) (w : World Db) where
  pub record Updated (dto : ExpenseDetailDto) (w' : World Db) : Type 0 where
    pub expense : ExpenseWithDetails
    pub member_ids : List ℕ
    pub splits : List SplitAmount
    pub updated : ExpenseWithDetails
    pub expense_found : repository.find_expense_by_id expense_id w.db ≡ ok (some expense)
    pub members_found : repository.find_group_member_ids expense.group_id w.db ≡ ok member_ids
    pub requester_is_member : includes member_ids requester_id ≡ true
    pub payer_is_member : includes member_ids (next_payer input expense) ≡ true
    pub made :
        update_splits
          (next_type input expense)
          (next_total input expense)
          input.participants
          expense
          member_ids
        ≡ ok splits
    pub adds_up : sum_split_amounts splits ≡ next_total input expense
    pub written :
        repository.update_expense_with_splits expense_id
          (update_data input expense splits)
          (updated_event requester_id input expense)
          w.db
        ≡ (ok updated, w'.db)
    pub answered : dto ≡ to_detail_dto updated
    pub counted : w'.metrics ≡ expenses_updated_total ∷ w.metrics

  module _ (dto : ExpenseDetailDto) (w' : World Db)
      (h : update_expense repository requester_id expense_id input w ≡ (ok dto, w')) where
    expense_known :
        (e : ExpenseWithDetails) × (repository.find_expense_by_id expense_id w.db ≡ ok (some e))
    unfolding update_expense
    expense_known = ground arith

    module _ (e : ExpenseWithDetails)
        (found : repository.find_expense_by_id expense_id w.db ≡ ok (some e)) where
      members_known : (ms : List ℕ) × (repository.find_group_member_ids e.group_id w.db ≡ ok ms)
      unfolding update_expense
      members_known = ground arith

      module _ (ms : List ℕ)
          (members : repository.find_group_member_ids e.group_id w.db ≡ ok ms) where
        splits_made :
            (ss : List SplitAmount) × (update_splits
                (next_type input e)
                (next_total input e)
                input.participants
                e
                ms
              ≡ ok ss)
        unfolding update_expense
        splits_made = ground arith

        module _ (ss : List SplitAmount)
            (made : update_splits (next_type input e) (next_total input e) input.participants e ms
              ≡ ok ss) where
          row_written :
              (u : ExpenseWithDetails) × (repository.update_expense_with_splits expense_id
                  (update_data input e ss)
                  (updated_event requester_id input e)
                  w.db
                ≡ (ok u, w'.db))
          unfolding update_expense
          row_written =
              let write =
                repository.update_expense_with_splits expense_id (update_data input e ss)
                  (updated_event requester_id input e) w.db in
              elim (Write-cases write) [
                | inl (u, db', written) ↦ (u, ground arith)
                | inr (x, db', failed) ↦ absurd (ground arith)
              ]

          updated_lem : input.participants ≢ some [] → e.splits ≢ [] → Updated dto w'
          unfolding update_expense
          updated_lem ne kept =
              let (u, written) = row_written in
              record {
                expense = e;
                member_ids = ms;
                splits = ss;
                updated = u;
                expense_found = found;
                members_found = members;
                requester_is_member = ground arith;
                payer_is_member = ground arith;
                made = made;
                adds_up = sum-update_splits _ _ input.participants e ms ss ne kept made;
                written = written;
                answered = ground arith;
                counted = ground arith;
              }

  -- If `updateExpense` returns, then the expense was found, requester and next payer are members of
  -- its group, and the repository replaced its splits by splits that add up to the next total. This
  -- is for a request with no empty list of participants, on an expense that has splits.
  pub update_expense-Updated :
      (dto : ExpenseDetailDto) (w' : World Db)
      → input.participants ≢ some []
      → ((e : ExpenseWithDetails)
          → repository.find_expense_by_id expense_id w.db ≡ ok (some e)
          → e.splits ≢ [])
      → update_expense repository requester_id expense_id input w ≡ (ok dto, w')
      → Updated dto w'
  update_expense-Updated dto w' ne kept h =
      let (e, found) = expense_known dto w' h in
      let (ms, members) = members_known dto w' h e found in
      let (ss, made) = splits_made dto w' h e found ms members in
      updated_lem dto w' h e found ms members ss made ne (kept e found)

update_expense-KeepsOnFailure :
    {Db : Type 0} (repository : ExpenseRepository Db) (requester_id expense_id : ℕ)
    (input : UpdateExpenseInput)
    → ((d : UpdateExpenseData) (a : ActivityEventInput)
        → RollsBack (repository.update_expense_with_splits expense_id d a))
    → KeepsOnFailure (update_expense repository requester_id expense_id input)
unfolding update_expense
update_expense-KeepsOnFailure repository requester_id expense_id input back =
    search keeps_rules depth 15

-- A refused or failed update leaves the counters and the store alone, if the transaction of the
-- repository rolls back.
pub update_expense_failed :
    {Db : Type 0} (repository : ExpenseRepository Db) (requester_id expense_id : ℕ)
    (input : UpdateExpenseInput) (w w' : World Db) (e : Failure)
    → ((d : UpdateExpenseData) (a : ActivityEventInput)
        → RollsBack (repository.update_expense_with_splits expense_id d a))
    → update_expense repository requester_id expense_id input w ≡ (err e, w')
    → w' ≡ w
update_expense_failed repository requester_id expense_id input w w' e back =
    keeps_state _ (update_expense-KeepsOnFailure repository requester_id expense_id input back) w w'
      e
