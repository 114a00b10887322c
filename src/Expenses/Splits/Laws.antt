-- ===== src/Expenses/Splits/Laws.antt =====
-- What a list of splits that `reconcile_splits` accepts satisfies, and when it accepts.
use split_bill_app.Prelude.{
  ℕ, ◌≡◌, ◌≢◌, refl, sym, ap, subst, ◌∙◌, ◌↔◌, List, [], ◌∷◌, inl, inr, some, true, false,
  Option-cases, includes, set_size, length, All, Distinct, set_size-eq-length_iff, arith,
}
use split_bill_app.Effects.{ok}
use split_bill_app.Expenses.{SplitType, equal, exact}
use split_bill_app.Expenses.Splits.{
  Participant, participant_ids, all_included, missing_amount, exact_splits, reconcile_splits,
  create_splits,
}
use split_bill_app.Money.Split.{SplitAmount, calculate_equal_splits, sum_split_amounts}
use split_bill_app.Money.Split.Laws.{
  users, sum_split_amounts-calculate_equal_splits, calculate_equal_splits_even,
}

-- The splits of an expense: different users, all of them members, whose shares make up the total.
pub record IsReconciled (total : ℕ) (member_ids : List ℕ) (splits : List SplitAmount) : Type 0 where
  pub distinct : Distinct (users splits)
  pub members : All (λ u. includes member_ids u ≡ true) (users splits)
  pub adds_up : sum_split_amounts splits ≡ total

all_included_sound :
    (member_ids ids : List ℕ)
    → all_included member_ids ids ≡ true
    → All (λ u. includes member_ids u ≡ true) ids
all_included_sound member_ids [] h = tt
all_included_sound member_ids (x ∷ xs) h = ground (arith, all_included_sound member_ids xs)

users-exact_splits : (ps : List Participant) → users (exact_splits ps) ≡ participant_ids ps
users-exact_splits [] = refl
users-exact_splits (p ∷ ps) = ap (λ l. p.user_id ∷ l) (users-exact_splits ps)

pub users-calculate_equal_splits :
    (total : ℕ) (ids : List ℕ) → ids ≢ [] → users (calculate_equal_splits total ids) ≡ ids
users-calculate_equal_splits total ids h = (calculate_equal_splits_even total ids h).0

ids_nonempty : (ps : List Participant) → ps ≢ [] → participant_ids ps ≢ []
ids_nonempty [] h = absurd (h refl)
ids_nonempty (p ∷ ps) h = cc

-- The steps in the body of `createExpense` are those of `reconcileSplits`.
pub create_splits-eq-reconcile_splits :
    (t : SplitType) (total : ℕ) (ps : List Participant) (member_ids : List ℕ)
    → create_splits t total ps member_ids ≡ reconcile_splits t total ps member_ids
unfolding create_splits reconcile_splits
create_splits-eq-reconcile_splits equal total ps member_ids = refl
create_splits-eq-reconcile_splits exact total ps member_ids = refl

all_included_complete :
    (member_ids ids : List ℕ)
    → All (λ u. includes member_ids u ≡ true) ids
    → all_included member_ids ids ≡ true
all_included_complete member_ids [] h = refl
all_included_complete member_ids (x ∷ xs) h = ground (arith, all_included_complete member_ids xs)

build-IsReconciled :
    (total : ℕ) (member_ids ids : List ℕ) (splits : List SplitAmount)
    → users splits ≡ ids
    → set_size ids ≡ length ids
    → all_included member_ids ids ≡ true
    → sum_split_amounts splits ≡ total
    → IsReconciled total member_ids splits
build-IsReconciled total member_ids ids splits u d m s = record {
  distinct = rw u ((set_size-eq-length_iff ids).0 d);
  members = rw u (all_included_sound member_ids ids m);
  adds_up = s;
}

-- Whatever `reconcileSplits` returns for a non-empty list of participants names each of them once,
-- in their order, all of them members, and adds up to the total.
pub reconcile_splits-IsReconciled :
    (t : SplitType) (total : ℕ) (ps : List Participant) (member_ids : List ℕ)
    (splits : List SplitAmount)
    → ps ≢ []
    → reconcile_splits t total ps member_ids ≡ ok splits
    → IsReconciled total member_ids splits × (users splits ≡ participant_ids ps)
unfolding reconcile_splits
reconcile_splits-IsReconciled equal total ps member_ids splits h e =
    let ids = participant_ids ps in
    let made : calculate_equal_splits total ids ≡ splits = ground arith in
    let u : users splits ≡ ids =
      rw (← made) (users-calculate_equal_splits total ids (ids_nonempty ps h)) in
    let s : sum_split_amounts splits ≡ total =
      rw (← made) (sum_split_amounts-calculate_equal_splits total ids (ids_nonempty ps h)) in
    (build-IsReconciled total member_ids ids splits u (ground arith) (ground arith) s, u)
reconcile_splits-IsReconciled exact total ps member_ids splits h e =
    let made : exact_splits ps ≡ splits = ground arith in
    let u : users splits ≡ participant_ids ps = rw (← made) (users-exact_splits ps) in
    let s : sum_split_amounts splits ≡ total = ground arith in
    (
      build-IsReconciled total member_ids (participant_ids ps) splits u (ground arith)
          (ground arith) s,
      u,
    )

-- Split by split, the user and the given amount of the participant in the same place.
abbrev pub AreGiven : List Participant → List SplitAmount → Type 0
AreGiven [] [] = Unit
AreGiven (p ∷ ps) (s ∷ splits) =
    (s.user_id ≡ p.user_id)
    × (p.amount_minor_units ≡ some s.amount_minor_units)
    × AreGiven ps splits
AreGiven [] (s ∷ splits) = ⊥
AreGiven (p ∷ ps) [] = ⊥

-- The splits that a request stands for: the equal shares, or the given amounts with the total for a
-- sum.
abbrev pub AreExpected : SplitType → ℕ → List Participant → List SplitAmount → Type 0
AreExpected equal total ps splits = splits ≡ calculate_equal_splits total (participant_ids ps)
AreExpected exact total ps splits = AreGiven ps splits × (sum_split_amounts splits ≡ total)

exact_splits-AreGiven :
    (ps : List Participant) → missing_amount ps ≡ false → AreGiven ps (exact_splits ps)
exact_splits-AreGiven [] h = tt
exact_splits-AreGiven (p ∷ ps) h = elim (Option-cases p.amount_minor_units) [
  | inl missing ↦ absurd (ground (arith, missing))
  | inr (n, given) ↦ (refl, ground (arith, given), exact_splits-AreGiven ps (ground (arith, given)))
]

given_not_missing :
    (ps : List Participant) (splits : List SplitAmount)
    → AreGiven ps splits
    → missing_amount ps ≡ false
given_not_missing [] [] h = refl
given_not_missing (p ∷ ps) (s ∷ splits) (u, given, rest) =
    ground (arith, given, given_not_missing ps splits rest)
given_not_missing [] (s ∷ splits) h = absurd h
given_not_missing (p ∷ ps) [] h = absurd h

given_unique :
    (ps : List Participant) (splits : List SplitAmount)
    → AreGiven ps splits
    → splits ≡ exact_splits ps
given_unique [] [] h = refl
given_unique (p ∷ ps) (s ∷ splits) (u, given, rest) =
    ground (arith, u, given, given_unique ps splits rest)
given_unique [] (s ∷ splits) h = absurd h
given_unique (p ∷ ps) [] h = absurd h

-- An EXACT request that has passed the first two tests.
exact_lem :
    (total : ℕ) (ps : List Participant) (splits : List SplitAmount)
    → ((missing_amount ps ≡ false)
        × (sum_split_amounts (exact_splits ps) ≡ total)
        × (exact_splits ps ≡ splits))
      ↔ AreExpected exact total ps splits
exact_lem total ps splits = (
  λ (m, s, made). subst (AreExpected exact total ps) made (exact_splits-AreGiven ps m, s),
  λ (given, s).
      let same = given_unique ps splits given in
      (given_not_missing ps splits given, ap sum_split_amounts (sym same) ∙ s, sym same),
)

-- `reconcileSplits` returns `splits` exactly if the participants are different, all of them are
-- members, and `splits` are the splits that the request stands for; so it throws for every other
-- request.
pub reconcile_splits-eq-ok_iff :
    (t : SplitType) (total : ℕ) (ps : List Participant) (member_ids : List ℕ)
    (splits : List SplitAmount)
    → (reconcile_splits t total ps member_ids ≡ ok splits) ↔ (
        Distinct (participant_ids ps)
        × All (λ u. includes member_ids u ≡ true) (participant_ids ps)
        × AreExpected t total ps splits)
unfolding reconcile_splits
reconcile_splits-eq-ok_iff equal total ps member_ids splits = ground (
  arith,
  set_size-eq-length_iff (participant_ids ps),
  all_included_sound member_ids (participant_ids ps),
  all_included_complete member_ids (participant_ids ps),
)
reconcile_splits-eq-ok_iff exact total ps member_ids splits =
    let ids = participant_ids ps in
    let expected = exact_lem total ps splits in
    let passed = all_included_complete member_ids ids in
    let unique = set_size-eq-length_iff ids in
    (
      λ h. (
        unique.0 (ground arith),
        all_included_sound member_ids ids (ground arith),
        expected.0 (ground arith, ground arith, ground arith),
      ),
      λ (d, m, given). ground (arith, unique.1 d, passed m, expected.1 given),
    )
