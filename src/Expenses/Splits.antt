-- ===== src/Expenses/Splits.antt =====
-- `ExpenseService.reconcileSplits`, and the splits that `createExpense` computes in its own body
-- (backend/src/modules/expenses/expense.service.ts).
pub mod Laws
use split_bill_app.Prelude.{
  ℕ, List, [], ◌∷◌, map, Option, Bool, true, not, ◌&&◌, includes, set_size, length, any, is_some,
  or_else, ◌==◌, if◌then◌else◌,
}
use split_bill_app.Errors.{
  app, bad_request_error, forbidden_error, duplicate_split_user, split_user_not_group_member,
  split_total_mismatch,
}
use split_bill_app.Effects.{Result, ok, err}
use split_bill_app.Expenses.{SplitType, equal, exact}
use split_bill_app.Money.Split.{SplitAmount, calculate_equal_splits, sum_split_amounts}

pub record Participant : Type 0 where
  pub user_id : ℕ
  pub amount_minor_units : Option ℕ

abbrev pub participant_ids : List Participant → List ℕ
participant_ids participants = map (λ p. p.user_id) participants

-- The loop over the participants throws at the first that is no member.
abbrev pub all_included : List ℕ → List ℕ → Bool
all_included member_ids [] = true
all_included member_ids (id ∷ ids) = includes member_ids id && all_included member_ids ids

abbrev pub missing_amount : List Participant → Bool
missing_amount participants = any (λ p. not (is_some p.amount_minor_units)) participants

-- The cast `as number` follows the test that no amount is missing.
abbrev pub exact_splits : List Participant → List SplitAmount
exact_splits participants =
    map (λ p. record { user_id = p.user_id; amount_minor_units = or_else p.amount_minor_units 0 })
      participants

unfoldable pub reconcile_splits :
    SplitType → ℕ → List Participant → List ℕ → Result (List SplitAmount)
reconcile_splits split_type total_minor_units participants member_ids =
    let ids = participant_ids participants in
    if not (set_size ids == length ids)
    then err (app (bad_request_error duplicate_split_user))
    else if not (all_included member_ids ids)
    then err (app (forbidden_error split_user_not_group_member))
    else elim split_type [
      | equal ↦ ok (calculate_equal_splits total_minor_units ids)
      | exact ↦
          let splits = exact_splits participants in
          if missing_amount participants
          then err (app (bad_request_error split_total_mismatch))
          else if not (sum_split_amounts splits == total_minor_units)
          then err (app (bad_request_error split_total_mismatch))
          else ok splits
    ]

-- The same steps, as `createExpense` writes them out.
unfoldable pub create_splits : SplitType → ℕ → List Participant → List ℕ → Result (List SplitAmount)
create_splits equal total_minor_units participants member_ids =
    let ids = participant_ids participants in
    if not (set_size ids == length ids)
    then err (app (bad_request_error duplicate_split_user))
    else if not (all_included member_ids ids)
    then err (app (forbidden_error split_user_not_group_member))
    else ok (calculate_equal_splits total_minor_units ids)
create_splits exact total_minor_units participants member_ids =
    let ids = participant_ids participants in
    let splits = exact_splits participants in
    if not (set_size ids == length ids)
    then err (app (bad_request_error duplicate_split_user))
    else if not (all_included member_ids ids)
    then err (app (forbidden_error split_user_not_group_member))
    else if missing_amount participants
    then err (app (bad_request_error split_total_mismatch))
    else if not (sum_split_amounts splits == total_minor_units)
    then err (app (bad_request_error split_total_mismatch))
    else ok splits
