-- ===== src/Settlements/Service/Create.antt =====
-- What `createSettlement` has checked when it returns, and what it does while another request holds
-- the lock of the group.
use split_bill_app.Prelude.{ℕ, ◌≡◌, ◌≢◌, inl, inr, List, ◌∷◌, some, includes, true, false, arith}
use split_bill_app.Errors.{app, conflict_error, settlement_concurrent_locked}
use split_bill_app.Keys.{settlement_lock_key}
use split_bill_app.Effects.{ok, err, Action, World, command, settlements_created_total}
use split_bill_app.Effects.Inversion.{Write-cases}
use split_bill_app.Records.{GroupRef, settlement_added}
use split_bill_app.Idempotency.{IdempotencyContext}
use split_bill_app.Lock.{RedisLike, RedisLaws, with_lock}
use split_bill_app.Lock.Laws.{Locked, with_lock_held, with_lock-Locked}
use split_bill_app.Settlements.{GroupMemberUser, SettlementRecord, SettlementRepository}
use split_bill_app.Settlements.Service.{
  CreateSettlementInput, ids_of, to_dto, WithLock, create_locked, create_settlement_service,
  catching_conflict,
}

-- The lock of the default constructor: `DistributedLock.withLock`, with one token for the call.
abbrev pub group_lock : {Db : Type 0} → RedisLike (World Db) → ℕ → ℕ → WithLock Db
group_lock redis ttl_ms token key = with_lock redis ttl_ms key token

module _ {Db : Type 0} (repository : SettlementRepository Db) (redis : RedisLike (World Db))
    (laws : RedisLaws redis) (ttl_ms token now requester_id : ℕ) (input : CreateSettlementInput)
    (idempotency : IdempotencyContext) (w : World Db) where
  abbrev lock : WithLock Db
  lock = group_lock redis ttl_ms token

  -- The write that runs under the lock: the settlement of the request, at the time of the call, with
  -- the requester as the one who recorded it.
  abbrev pub protected_write : Action (World Db) SettlementRecord
  protected_write = command (
      repository.create_settlement
        (record {
          group_id = input.group_id;
          payer_id = input.payer_id;
          payee_id = input.payee_id;
          amount_minor_units = input.amount_minor_units;
          currency_code = "PKR";
          settled_at = now;
        })
        idempotency
        (record {
          user_id = requester_id;
          type = settlement_added;
          message = "recorded a settlement";
        }))

  -- The request passes the checks of the method on these members.
  pub record MayCreate (members : List GroupMemberUser) : Type 0 where
    pub members_found : repository.find_group_members input.group_id w.db ≡ ok members
    pub requester_is_member : includes (ids_of members) requester_id ≡ true
    pub users_differ : input.payer_id ≢ input.payee_id
    pub payer_is_member : includes (ids_of members) input.payer_id ≡ true
    pub payee_is_member : includes (ids_of members) input.payee_id ≡ true

  -- A request that passes the checks goes on under the lock.
  checked :
      (group : GroupRef) (members : List GroupMemberUser)
      → repository.find_group_by_id input.group_id w.db ≡ ok (some group)
      → MayCreate members
      → create_settlement_service repository lock now requester_id input idempotency w
        ≡ catching_conflict (create_locked repository lock now requester_id input idempotency) w
  unfolding create_settlement_service
  checked group members known may = ground arith

  pub record SettlementMade (dto : SettlementRecord) (w' : World Db) : Type 0 where
    pub members : List GroupMemberUser
    pub may : MayCreate members
    pub settlement : SettlementRecord
    pub before_count : World Db
    pub under_lock :
        Locked redis ttl_ms
          (settlement_lock_key input.group_id)
          token
          protected_write
          w
          settlement
          before_count
    pub answered : dto ≡ to_dto settlement
    pub counted :
        w' ≡ record before_count { metrics = settlements_created_total ∷ before_count.metrics }

  module _ (dto : SettlementRecord) (w' : World Db)
      (h : create_settlement_service repository lock now requester_id input idempotency w
        ≡ (ok dto, w')) where
    group_known : (g : GroupRef) × (repository.find_group_by_id input.group_id w.db ≡ ok (some g))
    unfolding create_settlement_service
    group_known = ground arith

    members_known :
        (ms : List GroupMemberUser) × (repository.find_group_members input.group_id w.db ≡ ok ms)
    unfolding create_settlement_service
    members_known = let (g, found) = group_known in ground (arith, found)

    may_create :
        (ms : List GroupMemberUser)
        → repository.find_group_members input.group_id w.db ≡ ok ms
        → MayCreate ms
    unfolding create_settlement_service
    may_create ms members =
        let (g, found) = group_known in
        record {
          members_found = members;
          requester_is_member = ground (arith, found);
          users_differ = ground (arith, found);
          payer_is_member = ground (arith, found);
          payee_is_member = ground (arith, found);
        }

    made_lem : (ms : List GroupMemberUser) → MayCreate ms → SettlementMade dto w'
    unfolding create_locked
    made_lem ms may =
        let (g, found) = group_known in
        let ran = checked g ms found may in
        elim (Write-cases (lock (settlement_lock_key input.group_id) protected_write w)) [
          | inl (s, t, locked) ↦ record {
            members = ms;
            may = may;
            settlement = s;
            before_count = t;
            under_lock =
                with_lock-Locked redis laws ttl_ms (settlement_lock_key input.group_id) token
                  protected_write w s t locked;
            answered = ground (arith, ran);
            counted = ground (arith, ran);
          }
          | inr (x, t, failed) ↦ absurd (ground (arith, ran))
        ]

  -- If `createSettlement` returns, then requester, sender and receiver are members of the group, the
  -- sender is not the receiver, the repository's `createSettlement` has returned for the settlement of
  -- the request, which the answer gives back, and then the counter was incremented once, whether the
  -- settlement was new or replayed. Either the lock of the group was free before, and the token's when
  -- the repository was called, or Redis threw when the lock was asked for.
  pub create_settlement-SettlementMade :
      (dto : SettlementRecord) (w' : World Db)
      → create_settlement_service repository lock now requester_id input idempotency w
        ≡ (ok dto, w')
      → SettlementMade dto w'
  create_settlement-SettlementMade dto w' h =
      let (ms, members) = members_known dto w' h in
      made_lem dto w' h ms (may_create dto w' h ms members)

-- While another request holds the lock of the group, an acceptable request is answered by
-- SETTLEMENT_CONCURRENT_LOCKED (409), and nothing has changed: neither the store nor a counter.
pub create_settlement_while_locked :
    {Db : Type 0} (repository : SettlementRepository Db) (redis : RedisLike (World Db))
    (laws : RedisLaws redis) (ttl_ms token now requester_id : ℕ) (input : CreateSettlementInput)
    (idempotency : IdempotencyContext) (w w' : World Db) (group : GroupRef)
    (members : List GroupMemberUser)
    → repository.find_group_by_id input.group_id w.db ≡ ok (some group)
    → MayCreate repository redis laws ttl_ms token now requester_id input idempotency w members
    → redis.set_nx (settlement_lock_key input.group_id) token ttl_ms w ≡ (ok false, w')
    → create_settlement_service repository
        (group_lock redis ttl_ms token)
        now
        requester_id
        input
        idempotency
        w
      ≡ (err (app (conflict_error settlement_concurrent_locked)), w)
unfolding create_locked
create_settlement_while_locked repository redis laws ttl_ms token now requester_id input idempotency
      w w' group members known may held =
    ground (
      arith,
      checked repository redis laws ttl_ms token now requester_id input idempotency w group members
          known may,
      with_lock_held redis laws ttl_ms (settlement_lock_key input.group_id) token
          (protected_write repository redis laws ttl_ms token now requester_id input idempotency w)
          w w' held,
    )
