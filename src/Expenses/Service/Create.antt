-- ===== src/Expenses/Service/Create.antt =====
-- What `createExpense` has checked and written when it returns, and what it leaves when it throws.
use split_bill_app.Prelude.{
  ℕ, ◌≡◌, ◌≢◌, inl, inr, List, [], ◌∷◌, includes, true, some, sym, ◌∙◌, arith,
}
use split_bill_app.Effects.{ok, err, World, expenses_created_total}
use split_bill_app.Effects.Inversion.{
  Write-cases, KeepsOnFailure, RollsBack, keeps_rules, keeps_state,
}
use split_bill_app.Errors.{Failure}
use split_bill_app.Records.{GroupRef, ActivityEventInput}
use split_bill_app.Money.Split.{SplitAmount}
use split_bill_app.Money.Split.Laws.{users}
use split_bill_app.Expenses.{ExpenseRepository, ExpenseWithDetails, CreateExpenseData}
use split_bill_app.Expenses.Splits.{participant_ids, create_splits}
use split_bill_app.Expenses.Splits.Laws.{
  IsReconciled, create_splits-eq-reconcile_splits, reconcile_splits-IsReconciled,
}
use split_bill_app.Expenses.Requests.{
  CreateExpenseInput, ExpenseDetailDto, to_detail_dto, create_data, created_event,
}
use split_bill_app.Expenses.Service.{create_expense}

module _ {Db : Type 0} (repository : ExpenseRepository Db) (now requester_id : ℕ)
    (input : CreateExpenseInput) (w : World Db) where
  -- The run that ended with `dto` in `w'`: every check passed, one write, one increment.
  pub record Created (dto : ExpenseDetailDto) (w' : World Db) : Type 0 where
    pub group : GroupRef
    pub member_ids : List ℕ
    pub splits : List SplitAmount
    pub expense : ExpenseWithDetails
    pub group_found : repository.find_group_by_id input.group_id w.db ≡ ok (some group)
    pub members_found : repository.find_group_member_ids input.group_id w.db ≡ ok member_ids
    pub requester_is_member : includes member_ids requester_id ≡ true
    pub payer_is_member : includes member_ids input.payer_id ≡ true
    pub reconciled : IsReconciled input.amount_minor_units member_ids splits
    pub participants_kept : users splits ≡ participant_ids input.participants
    pub written :
        repository.create_expense_with_splits
          (create_data now input splits)
          (created_event requester_id input)
          w.db
        ≡ (ok expense, w'.db)
    pub answered : dto ≡ to_detail_dto expense
    pub counted : w'.metrics ≡ expenses_created_total ∷ w.metrics

  module _ (dto : ExpenseDetailDto) (w' : World Db)
      (h : create_expense repository now requester_id input w ≡ (ok dto, w')) where
    group_known : (g : GroupRef) × (repository.find_group_by_id input.group_id w.db ≡ ok (some g))
    unfolding create_expense
    group_known = ground arith

    members_known : (ms : List ℕ) × (repository.find_group_member_ids input.group_id w.db ≡ ok ms)
    unfolding create_expense
    members_known = let (g, found) = group_known in ground (arith, found)

    module _ (ms : List ℕ)
        (members : repository.find_group_member_ids input.group_id w.db ≡ ok ms) where
      splits_made :
          (ss : List SplitAmount) × (create_splits input.split_type input.amount_minor_units
              input.participants ms
            ≡ ok ss)
      unfolding create_expense
      splits_made = ground arith

      module _ (ss : List SplitAmount)
          (made : create_splits input.split_type input.amount_minor_units input.participants ms
            ≡ ok ss) where
        row_written :
            (e : ExpenseWithDetails) × (repository.create_expense_with_splits
                (create_data now input ss)
                (created_event requester_id input)
                w.db
              ≡ (ok e, w'.db))
        unfolding create_expense
        row_written =
            let (g, found) = group_known in
            let write =
              repository.create_expense_with_splits (create_data now input ss)
                (created_event requester_id input) w.db in
            elim (Write-cases write) [
              | inl (e, db', written) ↦ (e, ground (arith, found))
              | inr (x, db', failed) ↦ absurd (ground (arith, found))
            ]

        created : input.participants ≢ [] → Created dto w'
        unfolding create_expense
        created ne =
            let (reconciled, kept) =
              reconcile_splits-IsReconciled input.split_type input.amount_minor_units
                input.participants ms ss ne
                (sym (create_splits-eq-reconcile_splits _ _ _ ms) ∙ made) in
            let (e, written) = row_written in
            record {
              group = group_known.0;
              member_ids = ms;
              splits = ss;
              expense = e;
              group_found = group_known.1;
              members_found = members;
              requester_is_member = ground arith;
              payer_is_member = ground arith;
              reconciled = reconciled;
              participants_kept = kept;
              written = written;
              answered = ground arith;
              counted = ground arith;
            }

  -- If `createExpense` returns, for a request with participants, then the group was found, requester
  -- and payer are members, the splits are of different members in the order of the request and add
  -- up to the amount, and the repository stored exactly these.
  pub create_expense-Created :
      (dto : ExpenseDetailDto) (w' : World Db)
      → input.participants ≢ []
      → create_expense repository now requester_id input w ≡ (ok dto, w')
      → Created dto w'
  create_expense-Created dto w' ne h =
      let (ms, members) = members_known dto w' h in
      let (ss, made) = splits_made dto w' h ms members in created dto w' h ms members ss made ne

create_expense-KeepsOnFailure :
    {Db : Type 0} (repository : ExpenseRepository Db) (now requester_id : ℕ)
    (input : CreateExpenseInput)
    → ((d : CreateExpenseData) (a : ActivityEventInput)
        → RollsBack (repository.create_expense_with_splits d a))
    → KeepsOnFailure (create_expense repository now requester_id input)
unfolding create_expense
create_expense-KeepsOnFailure repository now requester_id input back = search keeps_rules depth 15

-- A refused or failed request leaves the counters and the store alone, if the transaction of the
-- repository rolls back.
pub create_expense_failed :
    {Db : Type 0} (repository : ExpenseRepository Db) (now requester_id : ℕ)
    (input : CreateExpenseInput) (w w' : World Db) (e : Failure)
    → ((d : CreateExpenseData) (a : ActivityEventInput)
        → RollsBack (repository.create_expense_with_splits d a))
    → create_expense repository now requester_id input w ≡ (err e, w')
    → w' ≡ w
create_expense_failed repository now requester_id input w w' e back =
    keeps_state _ (create_expense-KeepsOnFailure repository now requester_id input back) w w' e
