-- ===== src/Expenses/Ledger.antt =====
-- The expenses of a store over time: any sequence of calls of `ExpenseService` over its repository,
-- and of other writes that leave the expenses alone.
pub mod Soundness
pub mod Zero
mod Tests
use split_bill_app.Prelude.{ℕ, ◌≡◌, ◌≢◌, [], some}
use split_bill_app.Effects.{Result, World}
use split_bill_app.Database.{Transactions}
use split_bill_app.Expenses.Requests.{CreateExpenseInput, UpdateExpenseInput, ExpenseDetailDto}
use split_bill_app.Expenses.Repository.Tables.{ExpenseClient}
use split_bill_app.Expenses.Repository.{expense_repository}
use split_bill_app.Expenses.Service.{create_expense, update_expense, delete_expense}

module _ {Db : Type 0} (client : ExpenseClient Db) (transactions : Transactions Db) where
  -- One call, however it ends. The validators let no empty list of participants in.
  pub data Step (w : World Db) : World Db → Type 0 where
    creates :
        (now requester_id : ℕ) (input : CreateExpenseInput) (r : Result ExpenseDetailDto)
        (w' : World Db)
        → input.participants ≢ []
        → create_expense (expense_repository client transactions now) now requester_id input w
          ≡ (r, w')
        → Step w w'
    updates :
        (now requester_id expense_id : ℕ) (input : UpdateExpenseInput) (r : Result ExpenseDetailDto)
        (w' : World Db)
        → input.participants ≢ some []
        → update_expense
            (expense_repository client transactions now)
            requester_id
            expense_id
            input
            w
          ≡ (r, w')
        → Step w w'
    deletes :
        (now requester_id expense_id : ℕ) (r : Result (Unit {0})) (w' : World Db)
        → delete_expense (expense_repository client transactions now) requester_id expense_id w
          ≡ (r, w')
        → Step w w'
    others :
        (w' : World Db)
        → ((id : ℕ) → client.expense_of id w'.db ≡ client.expense_of id w.db)
        → Step w w'

  pub data Reach (start : World Db) : World Db → Type 0 where
    here : Reach start start
    later : {w w' : World Db} → Reach start w → Step w w' → Reach start w'
