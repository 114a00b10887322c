-- ===== src/Expenses/Ledger/Soundness.antt =====
-- Every expense that the service has ever stored is sound, in whatever order it was called.
use split_bill_app.Prelude.{
  ℕ, ◌≡◌, ◌≢◌, refl, sym, ap, ◌∙◌, List, [], ◌∷◌, map, Option, none, some, arith,
}
use split_bill_app.Effects.{ok, err, World}
use split_bill_app.Database.{Transactions, TransactionRules}
use split_bill_app.Money.Split.{SplitAmount, calculate_equal_splits}
use split_bill_app.Money.Split.Laws.{users}
use split_bill_app.Expenses.{SplitType, equal, exact, ExpenseWithDetails, SplitRow}
use split_bill_app.Expenses.Splits.{Participant, participant_ids}
use split_bill_app.Expenses.Splits.Laws.{
  reconcile_splits-IsReconciled, users-calculate_equal_splits,
}
use split_bill_app.Expenses.Requests.{
  CreateExpenseInput, UpdateExpenseInput, ExpenseDetailDto, update_splits, stored_splits,
}
use split_bill_app.Expenses.Service.Create.{Created, create_expense-Created, create_expense_failed}
use split_bill_app.Expenses.Service.Update.{Updated, update_expense-Updated, update_expense_failed}
use split_bill_app.Expenses.Service.Access.{delete_expense-Deleted, delete_expense_failed}
use split_bill_app.Expenses.Repository.Tables.{ExpenseClient, ExpenseRules}
use split_bill_app.Expenses.Repository.{expense_repository}
use split_bill_app.Expenses.Repository.Laws.{
  AllSound, creating_sound, updating_sound, deleting_sound, create-RollsBack, update-RollsBack,
  delete-RollsBack,
}
use split_bill_app.Expenses.Ledger.{Step, creates, updates, deletes, others, Reach, here, later}

nonempty_of_users :
    (splits : List SplitAmount) (ids : List ℕ) → users splits ≡ ids → ids ≢ [] → splits ≢ []
nonempty_of_users [] ids e h = λ _. h (sym e)
nonempty_of_users (s ∷ ss) ids e h = λ q. ground arith

participants_nonempty : (ps : List Participant) → ps ≢ [] → participant_ids ps ≢ []
participants_nonempty [] h = absurd (h refl)
participants_nonempty (p ∷ ps) h = λ q. ground arith

rows_nonempty : (rows : List SplitRow) → rows ≢ [] → map (λ s. s.user_id) rows ≢ []
rows_nonempty [] h = absurd (h refl)
rows_nonempty (r ∷ rs) h = λ q. ground arith

stored_nonempty :
    (e : ExpenseWithDetails) (rows : List SplitRow)
    → e.splits ≡ rows
    → rows ≢ []
    → stored_splits e ≢ []
stored_nonempty e [] same h = absurd (h refl)
stored_nonempty e (r ∷ rows) same h = rw same (λ q. ground arith)

-- An update stores some split.
update_splits_nonempty :
    (t : SplitType) (total : ℕ) (ps : Option (List Participant)) (e : ExpenseWithDetails)
    (member_ids : List ℕ) (splits : List SplitAmount)
    → ps ≢ some []
    → e.splits ≢ []
    → update_splits t total ps e member_ids ≡ ok splits
    → splits ≢ []
unfolding update_splits
update_splits_nonempty t total (some ps) e ms splits h k made =
    let some_left : ps ≢ [] = λ q. h (ap some q) in
    nonempty_of_users splits (participant_ids ps)
      (reconcile_splits-IsReconciled t total ps ms splits some_left made).1
      (participants_nonempty ps some_left)
update_splits_nonempty exact total none e ms splits h k made =
    let same : stored_splits e ≡ splits = ground arith in
    rw (← same) (stored_nonempty e e.splits refl k)
update_splits_nonempty equal total none e ms splits h k made =
    let same : calculate_equal_splits total (map (λ s. s.user_id) e.splits) ≡ splits =
      ground arith in
    let ids = rows_nonempty e.splits k in
    rw (← same) (nonempty_of_users _ _ (users-calculate_equal_splits total _ ids) ids)

module _ {Db : Type 0} (client : ExpenseClient Db) (transactions : Transactions Db)
    (commits : TransactionRules transactions) (rules : ExpenseRules client) where
  create_sound :
      (now requester_id : ℕ) (input : CreateExpenseInput) (dto : ExpenseDetailDto) (w w' : World Db)
      → input.participants ≢ []
      → Created (expense_repository client transactions now) now requester_id input w dto w'
      → AllSound client w.db
      → AllSound client w'.db
  create_sound now requester_id input dto w w' some_participant c all =
      creating_sound client transactions commits rules now _ _ c.expense w.db w'.db
        c.reconciled.adds_up
        (nonempty_of_users c.splits _ c.participants_kept
          (participants_nonempty input.participants some_participant))
        (commits.commits _ c.expense w.db w'.db c.written) all

  update_sound :
      (now requester_id expense_id : ℕ) (input : UpdateExpenseInput) (dto : ExpenseDetailDto)
      (w w' : World Db)
      → input.participants ≢ some []
      → ((e : ExpenseWithDetails)
          → client.find_expense expense_id w.db ≡ ok (some e)
          → e.splits ≢ [])
      → Updated (expense_repository client transactions now) requester_id expense_id input w dto w'
      → AllSound client w.db
      → AllSound client w'.db
  update_sound now requester_id expense_id input dto w w' ne some_split u all =
      updating_sound client transactions commits rules now expense_id _ _ u.updated w.db w'.db
        u.adds_up
        (update_splits_nonempty _ _ input.participants u.expense u.member_ids u.splits ne
          (some_split u.expense u.expense_found) u.made)
        (commits.commits _ u.updated w.db w'.db u.written) all

  found_nonempty :
      (expense_id : ℕ) (db : Db)
      → AllSound client db
      → (e : ExpenseWithDetails) → client.find_expense expense_id db ≡ ok (some e)
      → e.splits ≢ []
  unfolding AllSound
  found_nonempty expense_id db all e found =
      (all expense_id e (sym (rules.find_reads expense_id (some e) db found))).has_splits

  kept_sound :
      (db db' : Db)
      → ((id : ℕ) → client.expense_of id db' ≡ client.expense_of id db)
      → AllSound client db
      → AllSound client db'
  unfolding AllSound
  kept_sound db db' kept all id row e = all id row (sym (kept id) ∙ e)

  Step-AllSound :
      {w w' : World Db}
      → Step client transactions w w'
      → AllSound client w.db
      → AllSound client w'.db
  Step-AllSound {w} (creates now requester_id input (ok dto) w' ne run) all =
      create_sound now requester_id input dto w w' ne
        (create_expense-Created _ now requester_id input w dto w' ne run) all
  Step-AllSound {w} (creates now requester_id input (err e) w' ne run) all =
      let same =
        create_expense_failed _ now requester_id input w w' e
          (create-RollsBack client transactions commits rules now) run in
      rw same all
  Step-AllSound {w} (updates now requester_id expense_id input (ok dto) w' ne run) all =
      let some_split = found_nonempty expense_id w.db all in
      update_sound now requester_id expense_id input dto w w' ne some_split
        (update_expense-Updated _ requester_id expense_id input w dto w' ne some_split run) all
  Step-AllSound {w} (updates now requester_id expense_id input (err e) w' ne run) all =
      let same =
        update_expense_failed _ requester_id expense_id input w w' e
          (update-RollsBack client transactions commits rules now expense_id) run in
      rw same all
  Step-AllSound {w} (deletes now requester_id expense_id (ok u) w' run) all =
      let d = delete_expense-Deleted _ requester_id expense_id w w' run in
      deleting_sound client transactions commits rules now expense_id _ w.db w'.db
        (commits.commits _ tt w.db w'.db d.written) all
  Step-AllSound {w} (deletes now requester_id expense_id (err e) w' run) all =
      let same =
        delete_expense_failed _ requester_id expense_id w w' e
          (delete-RollsBack client transactions commits rules now expense_id) run in
      rw same all
  Step-AllSound {w} (others w' kept) all = kept_sound w.db w'.db kept all

  pub Reach-AllSound :
      {start w : World Db}
      → Reach client transactions start w
      → AllSound client start.db
      → AllSound client w.db
  Reach-AllSound here all = all
  Reach-AllSound (later r s) all = Step-AllSound s (Reach-AllSound r all)
