-- ===== src/Settlements.antt =====
-- backend/src/modules/settlements: the data of a settlement, the repository (Repository.antt) that
-- creates it once for each Idempotency-Key, and the service (Service.antt).
pub mod Repository
pub mod Service
mod Tests
use split_bill_app.Prelude.{ℕ, List, Option, String}
use split_bill_app.Effects.{Result}
use split_bill_app.Records.{SafeUser, GroupRef, ActivityEventInput, Pagination}
use split_bill_app.Idempotency.{IdempotencyContext}
use split_bill_app.Money.Balance.{ExpenseForBalance, SettlementForBalance}

pub record GroupMemberUser : Type 0 where
  pub user_id : ℕ
  pub user : SafeUser

pub record SettlementCreateData : Type 0 where
  pub group_id : ℕ
  pub payer_id : ℕ
  pub payee_id : ℕ
  pub amount_minor_units : ℕ
  pub currency_code : String
  pub settled_at : ℕ

pub record SettlementRecord : Type 0 where
  pub id : ℕ
  pub group_id : ℕ
  pub payer_id : ℕ
  pub payee_id : ℕ
  pub amount_minor_units : ℕ
  pub currency_code : String
  pub settled_at : ℕ
  pub created_at : ℕ
  pub updated_at : ℕ
  pub payer : SafeUser
  pub payee : SafeUser

-- `SettlementRepository` as the service sees it.
pub record SettlementRepository (Db : Type 0) : Type 0 where
  pub find_group_by_id : ℕ → Db → Result (Option GroupRef)
  pub find_group_members : ℕ → Db → Result (List GroupMemberUser)
  pub find_expenses_for_balances : ℕ → Db → Result (List ExpenseForBalance)
  pub find_settlements_for_balances : ℕ → Db → Result (List SettlementForBalance)
  pub create_settlement :
      SettlementCreateData
      → IdempotencyContext
      → ActivityEventInput
      → Db
      → Result SettlementRecord × Db
  pub find_settlement_by_id : ℕ → Db → Result (Option SettlementRecord)
  pub find_settlements_by_group_id :
      ℕ → Option Pagination → Db → Result (List SettlementRecord × Option ℕ)
