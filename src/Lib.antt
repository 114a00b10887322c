-- ===== src/Lib.antt =====
-- split-bill-app: a backend (backend/src) for sharing the expenses of a group. This library models its
-- services as functions and proves what they promise.
--
-- The parts, and the files that model them:
--   Prelude        numbers, lists, integers, maps: helpers without a part of the program of their own.
--   Keys, Errors   the Redis keys; backend/src/errors/app.error.ts and
--                  backend/src/constants/app-errors.ts.
--   Effects        an asynchronous method: `Action S A` takes a state and returns a result and a state.
--                  `World` is a store with the counters of backend/src/metrics/registry.ts.
--   Records        records that several modules share, and `Number(bigint)`.
--   Money          backend/src/modules/expenses/split.util.ts and
--                  backend/src/modules/settlements/balance.util.ts.
--   Expenses       backend/src/modules/expenses: `ExpenseService` over its repository.
--                  `create_expense`, `update_expense` and so on are the methods of these names in camel case.
--                  Expenses/Repository is expense.repository.ts over the Prisma client, and Expenses/Ledger
--                  the service over that repository, called any number of times.
--   Database       `prisma.$transaction`, a parameter.
--   Idempotency    backend/src/modules/idempotency/reconcile.ts.
--   Lock           backend/src/redis/distributedLock.ts over the commands of Redis.
--   Settlements    backend/src/modules/settlements: Repository models `createSettlement` and
--                  `replaySettlement` of settlement.repository.ts over the Prisma client, Service the methods of
--                  `SettlementService`, of which `create_settlement_service` is `createSettlement`.
--   Groups         backend/src/modules/groups/group.service.ts over its repository and its cache;
--                  Groups/Repository is
--                  group.repository.ts over the Prisma client, with its life over any sequence of
--                  writes; Groups/Cache is group.cache.ts over backend/src/redis/cacheStore.ts.
--   Queue          backend/src/queues/jobQueue.ts and job.types.ts; Queue/Worker is workerRunner.ts.
--   Activity       backend/src/modules/activity: the service and its repository.
--   RateLimit      backend/src/redis/rateLimitStore.ts over the commands of Redis.
--   Requests       backend/src/middleware/errorHandler.ts and authenticate.ts,
--                  backend/src/modules/idempotency/validate.ts and backend/src/utils/requestId.ts.
--   Metrics        backend/src/metrics/registry.ts: Labels (the keys of series), Registry, Render (the
--                  text for Prometheus) and Catalogue (the metrics that are defined).
--   Summary        backend/src/modules/summary: its service, jobs and repository.
--   Auth           backend/src/modules/auth/auth.service.ts: Sessions, Tokens and Profile; Auth/Repository is
--                  auth.repository.ts over the Prisma client, with its life over any sequence of writes.
-- How they interact: the services call a repository and increment counters; the settlement service runs
-- its write under the lock, and the write asks the idempotency rule what a repeated key means; the
-- balances are computed from the expenses and settlements that the repository reads.
--
-- The state: a service works on a `World`, whose store only the repository can look into. A method that
-- reads returns no store, so it cannot write. Prisma, Redis and the repositories behind the services are
-- parameters: records of operations, with what they are relied on for in records of laws (`RedisLaws`,
-- `CacheLaws`, `TransactionRules`, `TransactionLaws`, `WriteLaws`, `ExpenseRules`, `AuthRules`, `GroupRules`,
-- `SummaryRules`, `RateRules`), for which the Tests modules give instances.
--
-- Choices: ids, UUIDs, keys, tokens and hashes are numbers, as they are only compared; a date is its
-- milliseconds. Amounts are natural numbers, since the validators let only positive safe integers in;
-- balances are integers. The texts of errors and the log are left out.
-- The doubles of the registry of metrics, and how they are printed, are parameters; a text there is the
-- list of its UTF-16 code units. The time is an argument, one value
-- for a call. `Number(bigint)` is modelled with its rounding; the search for the spacing of the doubles
-- has fuel 64, which is enough below 2 ^ 117. A request is one sequence of steps: interleavings appear as
-- what the lock, the unique key and the transaction may answer. Expenses/Ledger and
-- the Life modules of Auth/Repository and Groups/Repository let whole calls follow each other in any order.
--
-- Not modelled: controllers, routes, validators and the OpenAPI documents, which pass values on; the
-- three other reads of the settlement repository, which hand on a query; the limiters, which configure a
-- library; the texts of emails; the timers of the worker; the frontend.
pub mod Prelude
pub mod Keys
pub mod Errors
pub mod Effects
pub mod Metrics
pub mod RateLimit
pub mod Requests
pub mod Records
pub mod Database
pub mod Money
pub mod Expenses
pub mod Idempotency
pub mod Lock
pub mod Settlements
pub mod Groups
pub mod Queue
pub mod Activity
pub mod Summary
pub mod Auth
