-- ===== src/Activity.antt =====
-- The activity feed of a group (backend/src/modules/activity/activity.service.ts).
pub mod Repository
use split_bill_app.Prelude.{ℕ, List, map, Option, none, some, String, Bool}
use split_bill_app.Errors.{app, forbidden_error, not_found_error, group_not_found, not_group_member}
use split_bill_app.Effects.{Result, Action, pure, or_throw, require, ◌>>=◌, ◌>>◌, World, query}
use split_bill_app.Records.{SafeUser, GroupRef, ActivityType, Pagination, to_num}

pub record ActivityEventRecord : Type 0 where
  pub id : ℕ
  pub group_id : ℕ
  pub user_id : ℕ
  pub type : ActivityType
  pub message : String
  pub amount_minor_units : Option ℕ
  pub currency_code : Option String
  pub occurred_at : ℕ
  pub created_at : ℕ
  pub user : SafeUser

pub record ActivityFeedPage : Type 0 where
  pub events : List ActivityEventRecord
  pub pagination : Pagination
  pub total : ℕ

pub record ActivityRepository (Db : Type 0) : Type 0 where
  pub find_group_by_id : ℕ → Db → Result (Option GroupRef)
  pub is_group_member : ℕ → ℕ → Db → Result Bool
  pub find_activity_by_group_id : ℕ → Pagination → Db → Result (List ActivityEventRecord × ℕ)

abbrev number_or_null : Option ℕ → Option ℕ
number_or_null none = none
number_or_null (some amount) = some (to_num amount)

-- `ActivityEventDto` has the fields of the record, its amount as a number.
unfoldable pub to_event_dto : ActivityEventRecord → ActivityEventRecord
to_event_dto event = record event { amount_minor_units = number_or_null event.amount_minor_units }

abbrev pub feed_page : Pagination → List ActivityEventRecord × ℕ → ActivityFeedPage
feed_page page (events, total) = record {
  events = map to_event_dto events;
  pagination = page;
  total = total;
}

unfoldable pub get_group_activity :
    {Db : Type 0} → ActivityRepository Db → ℕ → ℕ → Pagination → Action (World Db) ActivityFeedPage
get_group_activity repository requester_id group_id page = do
  group ← query (repository.find_group_by_id group_id)
  _ ← or_throw group (app (not_found_error group_not_found))
  is_member ← query (repository.is_group_member group_id requester_id)
  require is_member (app (forbidden_error not_group_member))
  found ← query (repository.find_activity_by_group_id group_id page)
  pure (feed_page page found)
