-- ===== src/Expenses/Ledger/Zero.antt =====
-- The balances of a group, read and computed at any time in the life of a store.
use split_bill_app.Prelude.{
  ℕ, ◌≡◌, refl, ◌∙◌, sym, List, [], ◌∷◌, map, none, pos, sum_of, sum_of-Perm, All, arith,
}
use split_bill_app.Effects.{Result, ok, err, World}
use split_bill_app.Database.{Transactions, TransactionRules}
use split_bill_app.Money.Split.{SplitAmount}
use split_bill_app.Money.Split.Laws.{sum_split_amounts-eq-sum_of}
use split_bill_app.Money.Balance.{ExpenseForBalance, SettlementForBalance, calculate_balances}
use split_bill_app.Money.Balance.Laws.{Reconciles, sum_of_balances, calculate_balances_zero}
use split_bill_app.Settlements.Repository.Balances.{
  BalanceRow, BalanceClient, BalanceRules, Stands, copied, for_balance, find_expenses_for_balances,
}
use split_bill_app.Expenses.Requests.{stored_splits}
use split_bill_app.Expenses.Repository.Tables.{ExpenseClient, ExpenseRules}
use split_bill_app.Expenses.Repository.Laws.{AllSound}
use split_bill_app.Expenses.Ledger.{Reach}
use split_bill_app.Expenses.Ledger.Soundness.{Reach-AllSound}

sum-copied :
    (splits : List SplitAmount)
    → sum_of (λ (s : SplitAmount). s.amount_minor_units) (map copied splits)
      ≡ sum_of (λ (s : SplitAmount). s.amount_minor_units) splits
sum-copied [] = refl
sum-copied (s ∷ splits) = omega (arith, sum-copied splits)

module _ {Db : Type 0} (client : ExpenseClient Db) (db : Db) where
  Stands-Reconciles :
      (row : BalanceRow) → AllSound client db → Stands client db row → Reconciles (for_balance row)
  unfolding AllSound
  Stands-Reconciles row all s =
      sum-copied row.splits
      ∙ sym (sum_of-Perm (λ s. s.amount_minor_units) s.mirrors.same_splits)
      ∙ sym (sum_split_amounts-eq-sum_of (stored_splits s.expense))
      ∙ (all s.id s.expense s.found).adds_up
      ∙ s.mirrors.same_amount

  all-Reconciles :
      (rows : List BalanceRow)
      → AllSound client db
      → All (Stands client db) rows
      → All Reconciles (map for_balance rows)
  all-Reconciles [] all h = tt
  all-Reconciles (r ∷ rows) all h = (Stands-Reconciles r all h.0, all-Reconciles rows all h.1)

  read-Reconciles :
      (reads : BalanceClient Db) (rules : BalanceRules client reads) (group_id : ℕ)
      (r : Result (List BalanceRow)) (es : List ExpenseForBalance)
      → reads.find_expense_rows group_id db ≡ r
      → find_expenses_for_balances reads group_id db ≡ ok es
      → AllSound client db
      → All Reconciles es
  read-Reconciles reads rules group_id (err x) es read h all = absurd (ground arith)
  read-Reconciles reads rules group_id (ok rows) es read h all =
      let same : map for_balance rows ≡ es = ground arith in
      rw (← same) (all-Reconciles rows all (rules.rows_stand group_id rows db read))

no_expense :
    {Db : Type 0} (client : ExpenseClient Db) (db : Db)
    → ((id : ℕ) → client.expense_of id db ≡ none)
    → AllSound client db
unfolding AllSound
no_expense client db empty id row e = absurd (ground (arith, empty id))

-- Start from a store without expenses, and let the service create, update and delete expenses in any
-- order, each call succeeding or failing, between writes that leave the expenses alone. Whenever the
-- expenses of a group are then read for the balances, the balances of all their users, computed from
-- them and any settlements, add up to zero. It is assumed that no validated request has an empty list of participants,
-- that a transaction commits or rolls back, and that the client stores and reads rows as documented.
pub reachable_balances_zero :
    {Db : Type 0} (client : ExpenseClient Db) (transactions : Transactions Db)
    → TransactionRules transactions
    → ExpenseRules client
    → (reads : BalanceClient Db) → BalanceRules client reads
    → (start w : World Db) → ((id : ℕ) → client.expense_of id start.db ≡ none)
    → Reach client transactions start w
    → (group_id : ℕ) (es : List ExpenseForBalance) (ss : List SettlementForBalance)
    → find_expenses_for_balances reads group_id w.db ≡ ok es
    → sum_of_balances (calculate_balances es ss) ≡ pos 0
reachable_balances_zero client transactions commits rules reads stand start w empty run g es ss
      read =
    let all =
      Reach-AllSound client transactions commits rules run (no_expense client start.db empty) in
    calculate_balances_zero es ss
      (read-Reconciles client w.db reads stand g (reads.find_expense_rows g w.db) es refl read all)
