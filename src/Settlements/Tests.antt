-- ===== src/Settlements/Tests.antt =====
-- The service of settlements on a small repository, with the lock on a Redis of cells.
use split_bill_app.Prelude.{ℕ, ◌≡◌, refl, List, [], ◌∷◌, some, map, arith}
use split_bill_app.Effects.{ok, World}
use split_bill_app.Records.{SafeUser, GroupRef}
use split_bill_app.Money.Balance.{ExpenseForBalance}
use split_bill_app.Idempotency.{IdempotencyContext}
use split_bill_app.Lock.{with_lock}
use split_bill_app.Lock.Tests.{Cells, cells_redis, cells_redis-RedisLaws, free, locked}
use split_bill_app.Settlements.{GroupMemberUser, SettlementRecord, SettlementRepository}
use split_bill_app.Settlements.Service.{
  CreateSettlementInput, create_settlement_service, create_locked, get_group_balances, to_dto,
}
use split_bill_app.Settlements.Service.Create.{
  SettlementMade, MayCreate, group_lock, create_settlement-SettlementMade,
}
use split_bill_app.Settlements.Service.GroupBalances.{expected_balance, get_group_balances_lem}

abbrev person : ℕ → SafeUser
person id = record { id = id; name = "Anna"; email = "anna@example.org" }

abbrev home : GroupRef
home = record { id = 7; name = "Home"; created_by_id = 2 }

abbrev members : List GroupMemberUser
members = record { user_id = 2; user = person 2 } ∷ record { user_id = 3; user = person 3 } ∷ []

abbrev expenses : List ExpenseForBalance
expenses =
    record {
      paid_by_id = 3;
      amount_minor_units = 1000;
      splits =
          record { user_id = 2; amount_minor_units = 500 }
          ∷ record { user_id = 3; amount_minor_units = 500 }
          ∷ [];
    }
    ∷ []

abbrev sent : SettlementRecord
sent = record {
  id = 1;
  group_id = 7;
  payer_id = 2;
  payee_id = 3;
  amount_minor_units = 500;
  currency_code = "PKR";
  settled_at = 1000;
  created_at = 1000;
  updated_at = 1000;
  payer = person 2;
  payee = person 3;
}

abbrev small : SettlementRepository Cells
small = record {
  find_group_by_id = λ id db. ok (some home);
  find_group_members = λ id db. ok members;
  find_expenses_for_balances = λ id db. ok expenses;
  find_settlements_for_balances = λ id db. ok [];
  create_settlement = λ d i a db. (ok sent, db);
  find_settlement_by_id = λ id db. ok (some sent);
  find_settlements_by_group_id = λ id p db. ok (sent ∷ [], some 1);
}

abbrev input : CreateSettlementInput
input = record { group_id = 7; payer_id = 2; payee_id = 3; amount_minor_units = 500 }

abbrev key : IdempotencyContext
key = record { key = 10; user_id = 2; request_hash = 33 }

-- The state after the call on an unlocked group.
abbrev after : World Cells
after = (create_settlement_service small (group_lock cells_redis 10000 1) 1000 2 input key free).1

created_run :
    create_settlement_service small (group_lock cells_redis 10000 1) 1000 2 input key free
    ≡ (ok (to_dto sent), after)
unfolding create_settlement_service create_locked with_lock
created_run = refl

create_settlement-SettlementMade_example :
    SettlementMade small cells_redis cells_redis-RedisLaws 10000 1 1000 2 input key free
      (to_dto sent)
      after
create_settlement-SettlementMade_example =
    create_settlement-SettlementMade small cells_redis cells_redis-RedisLaws 10000 1 1000 2 input
      key free (to_dto sent) after created_run

may : MayCreate small cells_redis cells_redis-RedisLaws 10000 2 1000 2 input key locked members
may = record {
  members_found = refl;
  requester_is_member = refl;
  users_differ = λ e. ground arith;
  payer_is_member = refl;
  payee_is_member = refl;
}

get_group_balances_lem_example :
    get_group_balances small 2 7 free ≡ (ok (map (expected_balance expenses []) members), free)
get_group_balances_lem_example =
    get_group_balances_lem small 2 7 free home members expenses [] refl refl refl refl refl
