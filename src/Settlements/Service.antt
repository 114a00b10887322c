-- ===== src/Settlements/Service.antt =====
-- The methods of `SettlementService` (backend/src/modules/settlements/settlement.service.ts). The
-- lock is a parameter, as in the constructor; `now` is the value of `new Date()`.
pub mod GroupBalances
pub mod Create
use split_bill_app.Prelude.{
  ℕ, suc, List, map, Option, none, some, includes, not, ◌==◌, String, ℤ, pos, negsuc, ◌-ℤ◌,
}
use split_bill_app.Errors.{
  Failure, app, lock_conflict, bad_request_error, conflict_error, forbidden_error, not_found_error,
  group_not_found, not_group_member, settlement_users_must_differ,
  settlement_payer_not_group_member, settlement_payee_not_group_member,
  settlement_concurrent_locked, settlement_not_found,
}
use split_bill_app.Keys.{Key, settlement_lock_key}
use split_bill_app.Effects.{
  Result, ok, err, Action, pure, or_throw, require, ◌>>=◌, ◌>>◌, World, query, command, increment,
  settlements_created_total,
}
use split_bill_app.Records.{ActivityEventInput, settlement_added, Pagination, to_num}
use split_bill_app.Idempotency.{IdempotencyContext}
use split_bill_app.Money.Balance.{Balances, balance_of, calculate_balances}
use split_bill_app.Settlements.{
  GroupMemberUser, SettlementCreateData, SettlementRecord, SettlementRepository,
}

pub record BalanceDto : Type 0 where
  pub user_id : ℕ
  pub name : String
  pub email : String
  pub amount_minor_units : ℤ

pub record CreateSettlementInput : Type 0 where
  pub group_id : ℕ
  pub payer_id : ℕ
  pub payee_id : ℕ
  pub amount_minor_units : ℕ

pub record SettlementListPage : Type 0 where
  pub settlements : List SettlementRecord
  pub pagination : Option (Pagination × Option ℕ)

-- `Number(value)` of a signed bigint.
unfoldable pub to_num_ℤ : ℤ → ℤ
to_num_ℤ (pos n) = pos (to_num n)
to_num_ℤ (negsuc n) = pos 0 -ℤ pos (to_num (suc n))

-- `SettlementDto` has the fields of the record, its amount as a number.
unfoldable pub to_dto : SettlementRecord → SettlementRecord
to_dto settlement = record settlement { amount_minor_units = to_num settlement.amount_minor_units }

abbrev pub to_balance_dto : Balances → GroupMemberUser → BalanceDto
to_balance_dto balances member = record {
  user_id = member.user_id;
  name = member.user.name;
  email = member.user.email;
  amount_minor_units = to_num_ℤ (balance_of member.user_id balances);
}

abbrev pub ids_of : List GroupMemberUser → List ℕ
ids_of members = map (λ m. m.user_id) members

abbrev pub list_page : Option Pagination → List SettlementRecord → Option ℕ → SettlementListPage
list_page none list total = record { settlements = list; pagination = none }
list_page (some p) list total = record { settlements = list; pagination = some (p, total) }

abbrev pub settlement_data : ℕ → CreateSettlementInput → SettlementCreateData
settlement_data now input = record {
  group_id = input.group_id;
  payer_id = input.payer_id;
  payee_id = input.payee_id;
  amount_minor_units = input.amount_minor_units;
  currency_code = "PKR";
  settled_at = now;
}

abbrev pub settlement_event : ℕ → ActivityEventInput
settlement_event requester_id = record {
  user_id = requester_id;
  type = settlement_added;
  message = "recorded a settlement";
}

-- The `catch` of `createSettlement`.
abbrev pub translate_conflict : {S A : Type 0} → Result A × S → Result A × S
translate_conflict (err (lock_conflict key), s) =
    (err (app (conflict_error settlement_concurrent_locked)), s)
translate_conflict (r, s) = (r, s)

abbrev pub catching_conflict : {S A : Type 0} → Action S A → Action S A
catching_conflict m s = translate_conflict (m s)

-- `withLock` on the calls that the service makes under it.
abbrev pub WithLock : Type 0 → Type 0
WithLock Db = Key → Action (World Db) SettlementRecord → Action (World Db) SettlementRecord

module _ {Db : Type 0} (repository : SettlementRepository Db) where
  open repository use {
    find_group_by_id, find_group_members, find_expenses_for_balances, find_settlements_for_balances,
    create_settlement, find_settlement_by_id, find_settlements_by_group_id,
  }

  unfoldable pub get_group_balances : ℕ → ℕ → Action (World Db) (List BalanceDto)
  get_group_balances requester_id group_id = do
    group ← query (find_group_by_id group_id)
    _ ← or_throw group (app (not_found_error group_not_found))
    members ← query (find_group_members group_id)
    require (includes (ids_of members) requester_id) (app (forbidden_error not_group_member))
    expenses ← query (find_expenses_for_balances group_id)
    settlements ← query (find_settlements_for_balances group_id)
    pure (map (to_balance_dto (calculate_balances expenses settlements)) members)

  -- The call under the lock, and what follows it inside the `try`.
  unfoldable pub create_locked :
      WithLock Db
      → ℕ
      → ℕ
      → CreateSettlementInput
      → IdempotencyContext
      → Action (World Db) SettlementRecord
  create_locked with_lock now requester_id input idempotency = do
    settlement ← with_lock (settlement_lock_key input.group_id) (
        command (
          create_settlement (settlement_data now input) idempotency
            (settlement_event requester_id)))
    increment settlements_created_total
    pure (to_dto settlement)

  unfoldable pub create_settlement_service :
      WithLock Db
      → ℕ
      → ℕ
      → CreateSettlementInput
      → IdempotencyContext
      → Action (World Db) SettlementRecord
  create_settlement_service with_lock now requester_id input idempotency = do
    group ← query (find_group_by_id input.group_id)
    _ ← or_throw group (app (not_found_error group_not_found))
    members ← query (find_group_members input.group_id)
    require (includes (ids_of members) requester_id) (app (forbidden_error not_group_member))
    require (not (input.payer_id == input.payee_id))
        (app (bad_request_error settlement_users_must_differ))
    require (includes (ids_of members) input.payer_id)
        (app (forbidden_error settlement_payer_not_group_member))
    require (includes (ids_of members) input.payee_id)
        (app (forbidden_error settlement_payee_not_group_member))
    catching_conflict (create_locked with_lock now requester_id input idempotency)

  unfoldable pub assert_member_of_group : ℕ → ℕ → Action (World Db) (Unit {0})
  assert_member_of_group requester_id group_id = do
    members ← query (find_group_members group_id)
    require (includes (ids_of members) requester_id) (app (forbidden_error not_group_member))

  unfoldable pub get_group_settlements :
      ℕ → ℕ → Option Pagination → Action (World Db) SettlementListPage
  unfolding assert_member_of_group
  get_group_settlements requester_id group_id pagination = do
    group ← query (find_group_by_id group_id)
    _ ← or_throw group (app (not_found_error group_not_found))
    assert_member_of_group requester_id group_id
    found ← query (find_settlements_by_group_id group_id pagination)
    pure (list_page pagination (map to_dto found.0) found.1)

  unfoldable pub get_settlement_by_id : ℕ → ℕ → Action (World Db) SettlementRecord
  unfolding assert_member_of_group
  get_settlement_by_id requester_id settlement_id = do
    found ← query (find_settlement_by_id settlement_id)
    settlement ← or_throw found (app (not_found_error settlement_not_found))
    assert_member_of_group requester_id settlement.group_id
    pure (to_dto settlement)
