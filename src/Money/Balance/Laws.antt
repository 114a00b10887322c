-- ===== src/Money/Balance/Laws.antt =====
-- The balances against an independent ledger for each user, and their sum.
use split_bill_app.Prelude.{
  ℕ, ◌+◌, ◌≡◌, refl, List, [], ◌∷◌, ℤ, pos, ◌+ℤ◌, ◌-ℤ◌, int_laws, insert, lookup-insert, sum_of,
  All, arith, ◌==◌, if◌then◌else◌,
}
use mathlib.Core.List.{foldl}
use split_bill_app.Money.Split.{SplitAmount}
use split_bill_app.Money.Balance.{
  ExpenseForBalance, SettlementForBalance, Balances, balance_of, credit, debit_split, add_expense,
  add_settlement, calculate_balances,
}

-- What the user has put in: expenses paid and settlements sent.
abbrev pub paid_in : ℕ → List ExpenseForBalance → List SettlementForBalance → ℕ
paid_in u es ss =
    sum_of (λ e. if e.paid_by_id == u then e.amount_minor_units else 0) es
    + sum_of (λ s. if s.payer_id == u then s.amount_minor_units else 0) ss

abbrev pub share_of : ℕ → List SplitAmount → ℕ
share_of u splits = sum_of (λ s. if s.user_id == u then s.amount_minor_units else 0) splits

-- What the user owes: shares of expenses and settlements received.
abbrev pub drawn_out : ℕ → List ExpenseForBalance → List SettlementForBalance → ℕ
drawn_out u es ss =
    sum_of (λ e. share_of u e.splits) es
    + sum_of (λ s. if s.payee_id == u then s.amount_minor_units else 0) ss

-- Each fact about a balance `b` is kept as `pos_part b + owed ≡ neg_part b + paid`.
balance_of-credit :
    (u k : ℕ) (a : ℤ) (b : Balances)
    → balance_of u (credit k a b) ≡ (if k == u then balance_of u b +ℤ a else balance_of u b)
balance_of-credit u k a b = ground (arith, lookup-insert k u (balance_of k b +ℤ a) b)

debit_splits_lem :
    (u : ℕ) (splits : List SplitAmount) (b : Balances)
    → balance_of u (foldl debit_split b splits) ≡ balance_of u b -ℤ pos (share_of u splits)
debit_splits_lem u [] b = omega int_laws
debit_splits_lem u (s ∷ splits) b = grind (
  int_laws,
  debit_splits_lem u splits (debit_split b s),
  balance_of-credit u s.user_id (pos 0 -ℤ pos s.amount_minor_units) b,
)

add_expenses_lem :
    (u : ℕ) (es : List ExpenseForBalance) (b : Balances)
    → balance_of u (foldl add_expense b es)
      ≡ balance_of u b
        +ℤ (pos (sum_of (λ e. if e.paid_by_id == u then e.amount_minor_units else 0) es)
            -ℤ pos (sum_of (λ e. share_of u e.splits) es))
add_expenses_lem u [] b = omega int_laws
add_expenses_lem u (e ∷ es) b = rw (add_expenses_lem u es (add_expense b e)) (
    grind (
      int_laws,
      debit_splits_lem u e.splits (credit e.paid_by_id (pos e.amount_minor_units) b),
      balance_of-credit u e.paid_by_id (pos e.amount_minor_units) b,
    ))

credit_pos :
    (u k n : ℕ) (b : Balances)
    → balance_of u (credit k (pos n) b) ≡ balance_of u b +ℤ pos (if k == u then n else 0)
credit_pos u k n b = grind (int_laws, balance_of-credit u k (pos n) b)

credit_neg :
    (u k n : ℕ) (b : Balances)
    → balance_of u (credit k (pos 0 -ℤ pos n) b) ≡ balance_of u b -ℤ pos (if k == u then n else 0)
credit_neg u k n b = grind (int_laws, balance_of-credit u k (pos 0 -ℤ pos n) b)

add_settlements_lem :
    (u : ℕ) (ss : List SettlementForBalance) (b : Balances)
    → balance_of u (foldl add_settlement b ss)
      ≡ balance_of u b
        +ℤ (pos (sum_of (λ s. if s.payer_id == u then s.amount_minor_units else 0) ss)
            -ℤ pos (sum_of (λ s. if s.payee_id == u then s.amount_minor_units else 0) ss))
add_settlements_lem u [] b = omega int_laws
add_settlements_lem u (s ∷ ss) b = rw (add_settlements_lem u ss (add_settlement b s)) (
    rw
      (
        credit_neg u s.payee_id s.amount_minor_units
            (credit s.payer_id (pos s.amount_minor_units) b),
        credit_pos u s.payer_id s.amount_minor_units b,
      )
      (omega int_laws))

-- The balance of every user is what the user paid and sent, less the user's shares and what the
-- user received.
pub balance_of-calculate_balances :
    (u : ℕ) (es : List ExpenseForBalance) (ss : List SettlementForBalance)
    → balance_of u (calculate_balances es ss) ≡ pos (paid_in u es ss) -ℤ pos (drawn_out u es ss)
unfolding calculate_balances
balance_of-calculate_balances u es ss =
    rw (add_settlements_lem u ss (foldl add_expense [] es), add_expenses_lem u es [])
      (omega int_laws)

abbrev pub sum_of_balances : Balances → ℤ
sum_of_balances [] = pos 0
sum_of_balances ((_, v) ∷ b) = v +ℤ sum_of_balances b

sum-insert :
    (k : ℕ) (v : ℤ) (b : Balances)
    → sum_of_balances (insert k v b) +ℤ balance_of k b ≡ sum_of_balances b +ℤ v
sum-insert k v [] = omega int_laws
sum-insert k v ((j, w) ∷ b) = grind (int_laws, sum-insert k v b)

sum-credit :
    (k : ℕ) (a : ℤ) (b : Balances) → sum_of_balances (credit k a b) ≡ sum_of_balances b +ℤ a
sum-credit k a b = grind (int_laws, sum-insert k (balance_of k b +ℤ a) b)

sum-debit_splits :
    (splits : List SplitAmount) (b : Balances)
    → sum_of_balances (foldl debit_split b splits)
      ≡ sum_of_balances b -ℤ pos (sum_of (λ s. s.amount_minor_units) splits)
sum-debit_splits [] b = omega int_laws
sum-debit_splits (s ∷ splits) b =
    rw
      (
        sum-debit_splits splits (debit_split b s),
        sum-credit s.user_id (pos 0 -ℤ pos s.amount_minor_units) b,
      )
      (omega int_laws)

sum-add_expenses :
    (es : List ExpenseForBalance) (b : Balances)
    → sum_of_balances (foldl add_expense b es)
      ≡ sum_of_balances b
        +ℤ (pos (sum_of (λ e. e.amount_minor_units) es)
            -ℤ pos (sum_of (λ e. sum_of (λ s. s.amount_minor_units) e.splits) es))
sum-add_expenses [] b = omega int_laws
sum-add_expenses (e ∷ es) b =
    rw
      (
        sum-add_expenses es (add_expense b e),
        sum-debit_splits e.splits (credit e.paid_by_id (pos e.amount_minor_units) b),
        sum-credit e.paid_by_id (pos e.amount_minor_units) b,
      )
      (omega int_laws)

sum-add_settlements :
    (ss : List SettlementForBalance) (b : Balances)
    → sum_of_balances (foldl add_settlement b ss) ≡ sum_of_balances b
sum-add_settlements [] b = refl
sum-add_settlements (s ∷ ss) b =
    rw
      (
        sum-add_settlements ss (add_settlement b s),
        sum-credit s.payee_id (pos 0 -ℤ pos s.amount_minor_units)
            (credit s.payer_id (pos s.amount_minor_units) b),
        sum-credit s.payer_id (pos s.amount_minor_units) b,
      )
      (omega int_laws)

-- The splits of an expense add up to its amount.
abbrev pub Reconciles : ExpenseForBalance → Type 0
Reconciles e = sum_of (λ s. s.amount_minor_units) e.splits ≡ e.amount_minor_units

pub sum_of-Reconciles :
    (es : List ExpenseForBalance)
    → All Reconciles es
    → sum_of (λ e. sum_of (λ s. s.amount_minor_units) e.splits) es
      ≡ sum_of (λ e. e.amount_minor_units) es
sum_of-Reconciles [] h = refl
sum_of-Reconciles (e ∷ es) h = omega (arith, sum_of-Reconciles es h.1)

-- The balances in the map add up to the expense amounts less all split amounts, whatever the
-- settlements are.
pub sum-calculate_balances :
    (es : List ExpenseForBalance) (ss : List SettlementForBalance)
    → sum_of_balances (calculate_balances es ss)
      ≡ pos (sum_of (λ e. e.amount_minor_units) es)
        -ℤ pos (sum_of (λ e. sum_of (λ s. s.amount_minor_units) e.splits) es)
unfolding calculate_balances
sum-calculate_balances es ss =
    rw (sum-add_settlements ss (foldl add_expense [] es), sum-add_expenses es []) (omega int_laws)

-- If the splits of every expense add up to its amount, the balances add up to zero.
pub calculate_balances_zero :
    (es : List ExpenseForBalance) (ss : List SettlementForBalance)
    → All Reconciles es
    → sum_of_balances (calculate_balances es ss) ≡ pos 0
calculate_balances_zero es ss h =
    rw (sum-calculate_balances es ss) (omega (int_laws, sum_of-Reconciles es h))
