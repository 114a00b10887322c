-- ===== src/Activity/Repository.antt =====
-- `ActivityRepository` and `createActivityEvent`
-- (backend/src/modules/activity/activity.repository.ts) over the calls of the Prisma client that they
-- make. The counter is kept beside the store of the transaction.
use split_bill_app.Prelude.{ℕ, ◌-◌, ◌*◌, List, Option, is_some, Bool}
use split_bill_app.Effects.{Result, ok, err, Action, pure, ◌>>=◌, ◌>>◌}
use split_bill_app.Records.{GroupRef, ActivityType, ActivityEventData, Pagination}
use split_bill_app.Activity.{ActivityEventRecord, ActivityRepository}

-- `find_events` has `skip` and `take` for its second and third arguments.
pub record ActivityClient (Db : Type 0) : Type 0 where
  pub create_event_row : ActivityEventData → Action Db ℕ
  pub count_event : ActivityType → Action Db (Unit {0})
  pub find_group : ℕ → Db → Result (Option GroupRef)
  pub find_member : (group_id user_id : ℕ) → Db → Result (Option ℕ)
  pub find_events : (group_id skip take : ℕ) → Db → Result (List ActivityEventRecord)
  pub count_events : ℕ → Db → Result ℕ

abbrev pub member_there : Result (Option ℕ) → Result Bool
member_there (ok found) = ok (is_some found)
member_there (err e) = err e

-- `Promise.all` of the page and the total.
abbrev pub page_with_total :
    Result (List ActivityEventRecord) → Result ℕ → Result (List ActivityEventRecord × ℕ)
page_with_total (ok events) (ok total) = ok (events, total)
page_with_total (ok events) (err e) = err e
page_with_total (err e) total = err e

module _ {Db : Type 0} (client : ActivityClient Db) where
  open client use {
    create_event_row, count_event, find_group, find_member, find_events, count_events,
  }

  -- The id of the event; it is counted once the row was created.
  unfoldable pub create_activity_event : ActivityEventData → Action Db ℕ
  create_activity_event d = do event ← create_event_row d; count_event d.event.type; pure event

  abbrev pub find_activity_by_group_id : ℕ → Pagination → Db → Result (List ActivityEventRecord × ℕ)
  find_activity_by_group_id group_id options db =
      page_with_total (find_events group_id ((options.page - 1) * options.limit) options.limit db)
        (count_events group_id db)

  abbrev pub activity_repository : ActivityRepository Db
  activity_repository = record {
    find_group_by_id = find_group;
    is_group_member = λ group_id user_id db. member_there (find_member group_id user_id db);
    find_activity_by_group_id = find_activity_by_group_id;
  }
