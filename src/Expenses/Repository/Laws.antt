-- ===== src/Expenses/Repository/Laws.antt =====
-- What the repository of expenses writes: whole rows or nothing, and rows whose splits add up.
use split_bill_app.Prelude.{
  ℕ, ◌≡◌, ◌≢◌, sym, ap, ◌∙◌, inl, inr, List, [], none, some, ◌==◌, Bool-cases, Perm, sum_of-Perm,
  subst, arith,
}
use mathlib.Core.List.Perm
use split_bill_app.Effects.{ok}
use split_bill_app.Effects.Inversion.{Write-cases, RollsBack}
use split_bill_app.Records.{ActivityEventInput}
use split_bill_app.Database.{Transactions, TransactionRules}
use split_bill_app.Money.Split.{SplitAmount, sum_split_amounts}
use split_bill_app.Money.Split.Laws.{sum_split_amounts-eq-sum_of}
use split_bill_app.Expenses.{
  CreateExpenseData, UpdateExpenseData, ExpenseWithDetails, ExpenseRepository,
}
use split_bill_app.Expenses.Requests.{stored_splits}
use split_bill_app.Expenses.Repository.Tables.{ExpenseClient, ExpenseRules, Mirrors, DeletedExpense}
use split_bill_app.Expenses.Repository.{
  creating, updating, deleting, expense_repository, expense_event, deletion_event, update_write,
}

-- The splits of a stored expense make up its amount, and there is one.
pub record IsSound (row : ExpenseWithDetails) : Type 0 where
  pub adds_up : sum_split_amounts (stored_splits row) ≡ row.amount_minor_units
  pub has_splits : row.splits ≢ []

Mirrors-IsSound :
    (row : ExpenseWithDetails) (amount : ℕ) (splits : List SplitAmount)
    → Mirrors row amount splits
    → sum_split_amounts splits ≡ amount
    → splits ≢ []
    → IsSound row
Mirrors-IsSound row amount splits m sum some_split = record {
  adds_up =
      sum_split_amounts-eq-sum_of (stored_splits row)
      ∙ sum_of-Perm (λ s. s.amount_minor_units) m.same_splits
      ∙ sym (sum_split_amounts-eq-sum_of splits)
      ∙ sum
      ∙ sym m.same_amount;
  has_splits = λ empty. some_split (
      sym (
        Perm.nil-eq (
          subst (λ l. Perm l splits) (ap (λ l. stored_splits (record row { splits = l })) empty)
            m.same_splits)));
}

-- Every stored expense is sound.
unfoldable pub AllSound : {Db : Type 0} → ExpenseClient Db → Db → Type 0
AllSound client db =
    (id : ℕ) (row : ExpenseWithDetails) → client.expense_of id db ≡ some row → IsSound row

module _ {Db : Type 0} (client : ExpenseClient Db) (transactions : Transactions Db)
    (commits : TransactionRules transactions) (rules : ExpenseRules client) (now : ℕ) where
  -- One row was written soundly and the others were kept.
  written_sound :
      (id : ℕ) (row : ExpenseWithDetails) (db db' : Db)
      → client.expense_of id db' ≡ some row
      → IsSound row
      → ((other : ℕ) → other ≢ id → client.expense_of other db' ≡ client.expense_of other db)
      → AllSound client db
      → AllSound client db'
  unfolding AllSound
  written_sound id row db db' found sound kept all other r e = elim (Bool-cases (other == id)) [
    | inl same ↦ subst IsSound (ground arith) sound
    | inr differ ↦ all other r (ground (arith, kept other (λ q. ground arith)))
  ]

  pub creating_sound :
      (d : CreateExpenseData) (activity : ActivityEventInput) (e : ExpenseWithDetails) (db db' : Db)
      → sum_split_amounts d.splits ≡ d.amount_minor_units
      → d.splits ≢ []
      → creating client transactions now d activity db ≡ (ok e, db')
      → AllSound client db
      → AllSound client db'
  unfolding creating
  creating_sound d activity e db db' sum some_split h all =
      elim (Write-cases (client.create_expense_row d db)) [
        | inr (x, t, failed) ↦ absurd (ground arith)
        | inl (a, t, made) ↦
            elim (Write-cases
              (client.create_activity_event (expense_event a activity a.created_at) t)) [
                | inr (x, u, failed) ↦ absurd (ground arith)
                | inl (v, u, told) ↦
                    let (row, found, mirrors) = rules.created d a db t made in
                    let last : db' ≡ u = ground arith in
                    rw last (
                      written_sound a.id row db u (rules.event_keeps _ t u a.id told ∙ found)
                        (Mirrors-IsSound row _ _ mirrors sum some_split)
                        (λ other q.
                          rules.event_keeps _ t u other told
                          ∙ rules.created_keeps d a db t other made q)
                        all)
              ]
      ]

  pub updating_sound :
      (id : ℕ) (d : UpdateExpenseData) (activity : ActivityEventInput) (e : ExpenseWithDetails)
      (db db' : Db)
      → sum_split_amounts d.splits ≡ d.amount_minor_units
      → d.splits ≢ []
      → updating client transactions now id d activity db ≡ (ok e, db')
      → AllSound client db
      → AllSound client db'
  unfolding updating
  updating_sound id d activity e db db' sum some_split h all =
      elim (Write-cases (client.update_expense_row id (update_write d) db)) [
        | inr (x, t, failed) ↦ absurd (ground arith)
        | inl (a, t, made) ↦
            elim (Write-cases (client.create_activity_event (expense_event a activity now) t)) [
              | inr (x, u, failed) ↦ absurd (ground arith)
              | inl (v, u, told) ↦
                  let (old, row, was, found, mirrors) =
                    rules.updated id (update_write d) a db t made in
                  let last : db' ≡ u = ground arith in
                  rw last (
                    written_sound id row db u (rules.event_keeps _ t u id told ∙ found)
                      (Mirrors-IsSound row _ _ mirrors sum some_split)
                      (λ other q.
                        rules.event_keeps _ t u other told
                        ∙ rules.updated_keeps id (update_write d) a db t other made q)
                      all)
            ]
      ]

  -- The row of a deleted expense is gone, and the others are kept.
  deleted_sound :
      (id : ℕ) (a : DeletedExpense) (db db' : Db)
      → client.expense_of id db' ≡ none
      → ((other : ℕ) → other ≢ id → client.expense_of other db' ≡ client.expense_of other db)
      → AllSound client db
      → AllSound client db'
  unfolding AllSound
  deleted_sound id a db db' gone kept all other r e = elim (Bool-cases (other == id)) [
    | inl same ↦ absurd (ground arith)
    | inr differ ↦ all other r (ground (arith, kept other (λ q. ground arith)))
  ]

  pub deleting_sound :
      (id : ℕ) (activity : ActivityEventInput) (db db' : Db)
      → deleting client transactions now id activity db ≡ (ok tt, db')
      → AllSound client db
      → AllSound client db'
  unfolding deleting
  deleting_sound id activity db db' h all = elim (Write-cases (client.delete_expense_row id db)) [
    | inr (x, t, failed) ↦ absurd (ground arith)
    | inl (a, t, made) ↦
        let told : client.create_activity_event (deletion_event a activity now) t ≡ (ok tt, db') =
          ground arith in
        deleted_sound id a db db' (rules.event_keeps _ t db' id told ∙ rules.deleted id a db t made)
          (λ other q.
            rules.event_keeps _ t db' other told ∙ rules.deleted_keeps id a db t other made q)
          all
  ]

  -- Each write of the repository is one transaction: if it throws, the store is as before.
  abbrev pub repository : ExpenseRepository Db
  repository = expense_repository client transactions now

  pub create-RollsBack :
      (d : CreateExpenseData) (a : ActivityEventInput)
      → RollsBack (repository.create_expense_with_splits d a)
  create-RollsBack d a db db' e h = commits.rolls_back _ e db db' h

  pub update-RollsBack :
      (id : ℕ) (d : UpdateExpenseData) (a : ActivityEventInput)
      → RollsBack (repository.update_expense_with_splits id d a)
  update-RollsBack id d a db db' e h = commits.rolls_back _ e db db' h

  pub delete-RollsBack :
      (id : ℕ) (a : ActivityEventInput) → RollsBack (repository.delete_expense_with_event id a)
  delete-RollsBack id a db db' e h = commits.rolls_back _ e db db' h
