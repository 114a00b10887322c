-- ===== src/Expenses/Ledger/Tests.antt =====
-- A table of expenses whose calls have the rules of the Prisma client, and a run of the service over
-- it.
use split_bill_app.Prelude.{
  ℕ, suc, All, ◌≡◌, ◌≢◌, refl, subst, List, [], ◌∷◌, map, Option, none, some, ◌==◌, if◌then◌else◌,
  Perm, pos, arith,
}
use mathlib.Core.List.Perm
use split_bill_app.Errors.{Failure, app, not_found_error, expense_not_found}
use split_bill_app.Effects.{ok, err, Action, World}
use split_bill_app.Records.{SafeUser}
use split_bill_app.Database.Atomic.{settle, atomic, atomic-TransactionRules}
use split_bill_app.Money.Split.{SplitAmount, calculate_equal_splits}
use split_bill_app.Money.Balance.{ExpenseForBalance, calculate_balances}
use split_bill_app.Money.Balance.Laws.{sum_of_balances}
use split_bill_app.Settlements.Repository.Balances.{
  BalanceRow, BalanceClient, BalanceRules, Stands, find_expenses_for_balances,
}
use split_bill_app.Expenses.{CreateExpenseData, SplitRow, ExpenseWithDetails, equal}
use split_bill_app.Expenses.Splits.{Participant, create_splits, reconcile_splits}
use split_bill_app.Expenses.Requests.{CreateExpenseInput, stored_splits}
use split_bill_app.Expenses.Service.{create_expense}
use split_bill_app.Expenses.Repository.Tables.{
  ExpenseClient, ExpenseRules, Mirrors, DeletedExpense, ExpenseUpdate, splits_after,
}
use split_bill_app.Expenses.Repository.{expense_repository, creating}
use split_bill_app.Expenses.Ledger.{creates, Reach, here, later}
use split_bill_app.Expenses.Ledger.Zero.{reachable_balances_zero}

record Rows : Type 0 where
  expenses : ℕ → Option ExpenseWithDetails
  next_id : ℕ

abbrev anna : SafeUser
anna = record { id = 1; name = "Anna"; email = "anna@example.org" }

abbrev split_row : SplitAmount → SplitRow
split_row s = record {
  id = 0;
  user_id = s.user_id;
  amount_minor_units = s.amount_minor_units;
  user = anna;
}

abbrev new_row : ℕ → CreateExpenseData → ExpenseWithDetails
new_row id d = record {
  expense = record {
    id = id;
    group_id = d.group_id;
    paid_by_id = d.paid_by_id;
    description = d.description;
    amount_minor_units = d.amount_minor_units;
    currency_code = d.currency_code;
    split_type = d.split_type;
    expense_date = d.expense_date;
    created_at = d.expense_date;
    updated_at = d.expense_date;
    payer = anna;
  };
  splits = map split_row d.splits;
}

abbrev changed : ExpenseUpdate → ExpenseWithDetails → ExpenseWithDetails
changed d e = record {
  expense = record e.expense {
    paid_by_id = d.paid_by_id;
    description = d.description;
    amount_minor_units = d.amount_minor_units;
    split_type = d.split_type;
    expense_date = d.expense_date;
  };
  splits = map split_row (splits_after d.splits (stored_splits e));
}

abbrev put : ℕ → Option ExpenseWithDetails → Rows → Rows
put id e db = record db { expenses = λ other. if other == id then e else db.expenses other }

-- Prisma throws when the row is not there.
missing : Failure
missing = app (not_found_error expense_not_found)

abbrev updating_row : ℕ → ExpenseUpdate → Option ExpenseWithDetails → Action Rows ExpenseWithDetails
updating_row id d none db = (err missing, db)
updating_row id d (some e) db = (ok (changed d e), put id (some (changed d e)) db)

abbrev deleting_row : ℕ → Option ExpenseWithDetails → Action Rows DeletedExpense
deleting_row id none db = (err missing, db)
deleting_row id (some e) db = (
  ok (record {
    group_id = e.group_id;
    amount_minor_units = e.amount_minor_units;
    currency_code = e.currency_code;
  }),
  put id none db,
)

abbrev table : ExpenseClient Rows
table = record {
  find_group = λ id db. ok (some (record { id = id; name = "Home"; created_by_id = 1 }));
  find_members = λ id db. ok (1 ∷ 2 ∷ []);
  create_expense_row = λ d db. (
    ok (new_row db.next_id d),
    record (put db.next_id (some (new_row db.next_id d)) db) { next_id = suc db.next_id },
  );
  find_expense = λ id db. ok (db.expenses id);
  update_expense_row = λ id d db. updating_row id d (db.expenses id) db;
  delete_expense_row = λ id db. deleting_row id (db.expenses id) db;
  create_activity_event = λ d db. (ok tt, db);
  find_expenses = λ id s db. ok [];
  count_expenses = λ id db. ok 0;
  expense_of = λ id db. db.expenses id;
}

rows_kept :
    (splits : List SplitAmount)
    → map
        (λ (s : SplitRow). record {
          user_id = s.user_id;
          amount_minor_units = s.amount_minor_units;
        })
        (map split_row splits)
      ≡ splits
rows_kept [] = refl
rows_kept (s ∷ splits) = rw (rows_kept splits) refl

rows_kept_Perm :
    (splits : List SplitAmount)
    → Perm
        (map
          (λ (s : SplitRow). record {
            user_id = s.user_id;
            amount_minor_units = s.amount_minor_units;
          })
          (map split_row splits))
        splits
rows_kept_Perm splits = rw (rows_kept splits) (Perm.refl _)

updated_lem :
    (id : ℕ) (d : ExpenseUpdate) (o : Option ExpenseWithDetails) (e : ExpenseWithDetails)
    (db db' : Rows)
    → updating_row id d o db ≡ (ok e, db')
    → db.expenses id ≡ o
    → (old row : ExpenseWithDetails) × (db.expenses id ≡ some old)
      × (db'.expenses id ≡ some row)
      × Mirrors row d.amount_minor_units (splits_after d.splits (stored_splits old))
updated_lem id d none e db db' h there = absurd (ground arith)
updated_lem id d (some x) e db db' h there = (
  x,
  changed d x,
  there,
  ground arith,
  record {
    same_amount = refl;
    same_splits = rows_kept_Perm (splits_after d.splits (stored_splits x));
  },
)

updated_keeps_lem :
    (id : ℕ) (d : ExpenseUpdate) (o : Option ExpenseWithDetails) (e : ExpenseWithDetails)
    (db db' : Rows) (other : ℕ)
    → updating_row id d o db ≡ (ok e, db')
    → other ≢ id
    → db'.expenses other ≡ db.expenses other
updated_keeps_lem id d none e db db' other h q = absurd (ground arith)
updated_keeps_lem id d (some x) e db db' other h q = ground arith

deleted_lem :
    (id : ℕ) (o : Option ExpenseWithDetails) (e : DeletedExpense) (db db' : Rows)
    → deleting_row id o db ≡ (ok e, db')
    → db'.expenses id ≡ none
deleted_lem id none e db db' h = absurd (ground arith)
deleted_lem id (some x) e db db' h = ground arith

deleted_keeps_lem :
    (id : ℕ) (o : Option ExpenseWithDetails) (e : DeletedExpense) (db db' : Rows) (other : ℕ)
    → deleting_row id o db ≡ (ok e, db')
    → other ≢ id
    → db'.expenses other ≡ db.expenses other
deleted_keeps_lem id none e db db' other h q = absurd (ground arith)
deleted_keeps_lem id (some x) e db db' other h q = ground arith

table-ExpenseRules : ExpenseRules table
table-ExpenseRules = record {
  find_reads = λ id o db h. ground arith;
  created = λ d e db db' h. (
    new_row db.next_id d,
    ground arith,
    record { same_amount = refl; same_splits = rows_kept_Perm d.splits },
  );
  created_keeps = λ d e db db' id h q. ground arith;
  updated = λ id d e db db' h. updated_lem id d (db.expenses id) e db db' h refl;
  updated_keeps =
      λ id d e db db' other h q. updated_keeps_lem id d (db.expenses id) e db db' other h q;
  deleted = λ id e db db' h. deleted_lem id (db.expenses id) e db db' h;
  deleted_keeps = λ id e db db' other h q. deleted_keeps_lem id (db.expenses id) e db db' other h q;
  event_keeps = λ d db db' id h. ground arith;
}

-- The rows of the group are read under the ids 1 and 2.
abbrev row_of : Option ExpenseWithDetails → List BalanceRow → List BalanceRow
row_of none rows = rows
row_of (some e) rows =
    record {
      paid_by_id = e.paid_by_id;
      amount_minor_units = e.amount_minor_units;
      splits = stored_splits e;
    }
    ∷ rows

abbrev reads : BalanceClient Rows
reads = record {
  find_expense_rows = λ g db. ok (row_of (db.expenses 1) (row_of (db.expenses 2) []));
  find_settlement_rows = λ g db. ok [];
}

stands_lem :
    (db : Rows) (id : ℕ) (o : Option ExpenseWithDetails) (rows : List BalanceRow)
    → db.expenses id ≡ o
    → All (Stands table db) rows
    → All (Stands table db) (row_of o rows)
stands_lem db id none rows h all = all
stands_lem db id (some e) rows h all = (
  record {
    id = id;
    expense = e;
    found = h;
    mirrors = record { same_amount = refl; same_splits = Perm.refl _ };
  },
  all,
)

reads-BalanceRules : BalanceRules table reads
reads-BalanceRules = record {
  rows_stand = λ g rows db h.
      let stand =
        stands_lem db 1 (db.expenses 1) _ refl (stands_lem db 2 (db.expenses 2) [] refl tt) in
      subst (All (Stands table db)) (ground arith) stand;
}

abbrev empty : World Rows
empty = record { db = record { expenses = λ id. none; next_id = 1 }; metrics = [] }

abbrev person : ℕ → Participant
person id = record { user_id = id; amount_minor_units = none }

abbrev dinner : CreateExpenseInput
dinner = record {
  group_id = 7;
  description = "Dinner";
  amount_minor_units = 101;
  payer_id = 1;
  split_type = equal;
  participants = person 1 ∷ person 2 ∷ [];
  expense_date = some 5;
}

abbrev after : World Rows
after = (create_expense (expense_repository table atomic 9) 9 1 dinner empty).1

dinner_run : Reach table atomic empty after
dinner_run = later here (creates 9 1 dinner _ after (λ q. ground arith) refl)

abbrev share : ℕ → ℕ → SplitAmount
share user_id amount = record { user_id = user_id; amount_minor_units = amount }

abbrev dinner_read : List ExpenseForBalance
dinner_read =
    record { paid_by_id = 1; amount_minor_units = 101; splits = share 1 51 ∷ share 2 50 ∷ [] } ∷ []

dinner_found : find_expenses_for_balances reads 7 after.db ≡ ok dinner_read
unfolding create_expense creating settle create_splits reconcile_splits calculate_equal_splits
dinner_found = refl

reachable_balances_zero_example : sum_of_balances (calculate_balances dinner_read []) ≡ pos 0
reachable_balances_zero_example =
    reachable_balances_zero table atomic atomic-TransactionRules table-ExpenseRules reads
      reads-BalanceRules empty after (λ id. refl) dinner_run 7 dinner_read [] dinner_found
