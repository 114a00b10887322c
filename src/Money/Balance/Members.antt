-- ===== src/Money/Balance/Members.antt =====
-- The balances of the members of a group, added up.
use split_bill_app.Prelude.{
  ℕ, ◌+◌, ◌≡◌, refl, ◌∙◌, List, [], ◌∷◌, true, false, ◌==◌, if◌then◌else◌, includes, Distinct, All,
  sum_of, map, ℤ, pos, ◌+ℤ◌, ◌-ℤ◌, int_laws, arith,
}
use split_bill_app.Money.Balance.{
  ExpenseForBalance, SettlementForBalance, calculate_balances, balance_of,
}
use split_bill_app.Money.Balance.Laws.{
  paid_in, drawn_out, share_of, Reconciles, sum_of-Reconciles, balance_of-calculate_balances,
}

module _ {A : Type 0} where
  sum_of_zero : (f : A → ℕ) (xs : List A) → ((x : A) → f x ≡ 0) → sum_of f xs ≡ 0
  sum_of_zero f [] h = refl
  sum_of_zero f (x ∷ xs) h = omega (arith, h x, sum_of_zero f xs h)

  sum_of_add : (f g : A → ℕ) (xs : List A) → sum_of (λ x. f x + g x) xs ≡ sum_of f xs + sum_of g xs
  sum_of_add f g [] = omega arith
  sum_of_add f g (x ∷ xs) = omega (arith, sum_of_add f g xs)

-- A double sum in either order.
sum_of_swap :
    {A B : Type 0} (g : A → B → ℕ) (xs : List A) (ys : List B)
    → sum_of (λ y. sum_of (λ x. g x y) xs) ys ≡ sum_of (λ x. sum_of (λ y. g x y) ys) xs
sum_of_swap g [] ys = sum_of_zero (λ y. 0) ys (λ y. refl)
sum_of_swap g (x ∷ xs) ys =
    sum_of_add (λ y. g x y) (λ y. sum_of (λ x. g x y) xs) ys ∙ omega (arith, sum_of_swap g xs ys)

absent :
    (k n : ℕ) (ms : List ℕ) → includes ms k ≡ false → sum_of (λ u. if k == u then n else 0) ms ≡ 0
absent k n [] h = refl
absent k n (m ∷ ms) h = ground (arith, absent k n ms)

-- An amount of user `k` is counted once, for the member `k`.
counted_once :
    (k n : ℕ) (ms : List ℕ)
    → Distinct ms
    → includes ms k ≡ true
    → sum_of (λ u. if k == u then n else 0) ms ≡ n
counted_once k n [] d h = absurd (ground arith)
counted_once k n (m ∷ ms) d h = ground (arith, counted_once k n ms, absent k n ms)

-- Every user of the records is a member.
abbrev pub Covers : List ℕ → List ExpenseForBalance → List SettlementForBalance → Type 0
Covers ms es ss =
    All (λ e. (includes ms e.paid_by_id ≡ true) × All (λ s. includes ms s.user_id ≡ true) e.splits)
      es
    × All (λ s. (includes ms s.payer_id ≡ true) × (includes ms s.payee_id ≡ true)) ss

module _ (ms : List ℕ) (distinct : Distinct ms) where
  keyed_sum :
      {A : Type 0} (key amount : A → ℕ) (xs : List A)
      → All (λ x. includes ms (key x) ≡ true) xs
      → sum_of (λ x. sum_of (λ u. if key x == u then amount x else 0) ms) xs ≡ sum_of amount xs
  keyed_sum key amount [] h = refl
  keyed_sum key amount (x ∷ xs) h =
      omega (arith, counted_once (key x) (amount x) ms distinct h.0, keyed_sum key amount xs h.1)

  by_member :
      {A : Type 0} (key amount : A → ℕ) (xs : List A)
      → All (λ x. includes ms (key x) ≡ true) xs
      → sum_of (λ u. sum_of (λ x. if key x == u then amount x else 0) xs) ms ≡ sum_of amount xs
  by_member key amount xs h =
      sum_of_swap (λ x u. if key x == u then amount x else 0) xs ms ∙ keyed_sum key amount xs h

  shares_by_member :
      (es : List ExpenseForBalance)
      → All
          (λ e.
            (includes ms e.paid_by_id ≡ true) × All (λ s. includes ms s.user_id ≡ true) e.splits)
          es
      → sum_of (λ e. sum_of (λ u. share_of u e.splits) ms) es
        ≡ sum_of (λ e. sum_of (λ s. s.amount_minor_units) e.splits) es
  shares_by_member [] h = refl
  shares_by_member (e ∷ es) h = omega (
    arith,
    by_member (λ s. s.user_id) (λ s. s.amount_minor_units) e.splits h.0.1,
    shares_by_member es h.1,
  )

All-first : {A : Type 0} (P Q : A → Type 0) (xs : List A) → All (λ x. P x × Q x) xs → All P xs
All-first P Q [] h = tt
All-first P Q (x ∷ xs) h = (h.0.0, All-first P Q xs h.1)

All-second : {A : Type 0} (P Q : A → Type 0) (xs : List A) → All (λ x. P x × Q x) xs → All Q xs
All-second P Q [] h = tt
All-second P Q (x ∷ xs) h = (h.0.1, All-second P Q xs h.1)

module _ (ms : List ℕ) (distinct : Distinct ms) (es : List ExpenseForBalance)
    (ss : List SettlementForBalance) (covers : Covers ms es ss) where
  members_paid :
      sum_of (λ u. paid_in u es ss) ms
      ≡ sum_of (λ e. e.amount_minor_units) es + sum_of (λ s. s.amount_minor_units) ss
  members_paid =
      sum_of_add (λ u. sum_of (λ e. if e.paid_by_id == u then e.amount_minor_units else 0) es)
        (λ u. sum_of (λ s. if s.payer_id == u then s.amount_minor_units else 0) ss) ms
      ∙ omega (
        arith,
        by_member ms distinct (λ e. e.paid_by_id) (λ e. e.amount_minor_units) es
            (All-first _ _ es covers.0),
        by_member ms distinct (λ s. s.payer_id) (λ s. s.amount_minor_units) ss
            (All-first _ _ ss covers.1),
      )

  members_drew :
      sum_of (λ u. drawn_out u es ss) ms
      ≡ sum_of (λ e. sum_of (λ s. s.amount_minor_units) e.splits) es
        + sum_of (λ s. s.amount_minor_units) ss
  members_drew =
      sum_of_add (λ u. sum_of (λ e. share_of u e.splits) es)
        (λ u. sum_of (λ s. if s.payee_id == u then s.amount_minor_units else 0) ss) ms
      ∙ omega (
        arith,
        sum_of_swap (λ e u. share_of u e.splits) es ms,
        shares_by_member ms distinct es covers.0,
        by_member ms distinct (λ s. s.payee_id) (λ s. s.amount_minor_units) ss
            (All-second _ _ ss covers.1),
      )

-- The sum of a list of integers.
abbrev pub sum_ℤ : List ℤ → ℤ
sum_ℤ [] = pos 0
sum_ℤ (a ∷ rest) = a +ℤ sum_ℤ rest

abbrev pub balances_of : List ℕ → List ExpenseForBalance → List SettlementForBalance → List ℤ
balances_of ms es ss = map (λ u. balance_of u (calculate_balances es ss)) ms

sum-balances_of :
    (ms : List ℕ) (es : List ExpenseForBalance) (ss : List SettlementForBalance)
    → sum_ℤ (balances_of ms es ss)
      ≡ pos (sum_of (λ u. paid_in u es ss) ms) -ℤ pos (sum_of (λ u. drawn_out u es ss) ms)
sum-balances_of [] es ss = omega int_laws
sum-balances_of (m ∷ ms) es ss =
    rw (sum-balances_of ms es ss, balance_of-calculate_balances m es ss) (omega int_laws)

-- The balances of the members add up to zero, if the members are all the users of the records, each
-- once, and the splits of every expense add up to its amount.
pub balances_of_members_zero :
    (ms : List ℕ) (es : List ExpenseForBalance) (ss : List SettlementForBalance)
    → Distinct ms
    → Covers ms es ss
    → All Reconciles es
    → sum_ℤ (balances_of ms es ss) ≡ pos 0
balances_of_members_zero ms es ss distinct covers reconciled = rw (sum-balances_of ms es ss) (
    omega (
      int_laws,
      members_paid ms distinct es ss covers,
      members_drew ms distinct es ss covers,
      sum_of-Reconciles es reconciled,
    ))
