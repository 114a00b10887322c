-- ===== src/Settlements/Service/GroupBalances.antt =====
-- What `getGroupBalances` answers.
use split_bill_app.Prelude.{ℕ, ◌≡◌, List, map, some, includes, true, pos, ◌-ℤ◌, ap, arith}
use mathlib.Core.Path.{fun_ext}
use split_bill_app.Effects.{ok, World}
use split_bill_app.Records.{GroupRef}
use split_bill_app.Money.Balance.{ExpenseForBalance, SettlementForBalance, calculate_balances}
use split_bill_app.Money.Balance.Laws.{paid_in, drawn_out, balance_of-calculate_balances}
use split_bill_app.Settlements.{GroupMemberUser, SettlementRepository}
use split_bill_app.Settlements.Service.{
  BalanceDto, to_num_ℤ, to_balance_dto, ids_of, get_group_balances,
}

-- One entry for a member: what the member paid and sent, less what the member owes and received.
abbrev pub expected_balance :
    List ExpenseForBalance → List SettlementForBalance → GroupMemberUser → BalanceDto
expected_balance es ss member = record {
  user_id = member.user_id;
  name = member.user.name;
  email = member.user.email;
  amount_minor_units =
      to_num_ℤ (pos (paid_in member.user_id es ss) -ℤ pos (drawn_out member.user_id es ss));
}

to_balance_dto-expected :
    (es : List ExpenseForBalance) (ss : List SettlementForBalance) (members : List GroupMemberUser)
    → map (to_balance_dto (calculate_balances es ss)) members ≡ map (expected_balance es ss) members
to_balance_dto-expected es ss members =
    ap (λ f. map f members)
      (fun_ext λ m.
        ap
          (λ b. record {
            user_id = m.user_id;
            name = m.user.name;
            email = m.user.email;
            amount_minor_units = to_num_ℤ b;
          })
          (balance_of-calculate_balances m.user_id es ss))

-- For a member of a known group, whose records can be read, the answer lists every member in order,
-- each with what the member paid and sent less what the member owes and received; the call changes
-- nothing.
pub get_group_balances_lem :
    {Db : Type 0} (repository : SettlementRepository Db) (requester_id group_id : ℕ) (w : World Db)
    (group : GroupRef) (members : List GroupMemberUser) (es : List ExpenseForBalance)
    (ss : List SettlementForBalance)
    → repository.find_group_by_id group_id w.db ≡ ok (some group)
    → repository.find_group_members group_id w.db ≡ ok members
    → includes (ids_of members) requester_id ≡ true
    → repository.find_expenses_for_balances group_id w.db ≡ ok es
    → repository.find_settlements_for_balances group_id w.db ≡ ok ss
    → get_group_balances repository requester_id group_id w
      ≡ (ok (map (expected_balance es ss) members), w)
unfolding get_group_balances
get_group_balances_lem repository requester_id group_id w group members es ss g m i e s =
    rw (← to_balance_dto-expected es ss members) (ground arith)
