-- ===== src/Groups/Repository.antt =====
-- `GroupRepository` (backend/src/modules/groups/group.repository.ts) over the calls of the Prisma
-- client that it makes, as the repository that the service is built over. `now` is the value of
-- `new Date()`.
pub mod Owners
pub mod Life
mod Tests
use split_bill_app.Prelude.{ℕ, List, map, Option, none, some, is_some, Bool, String}
use split_bill_app.Effects.{Result, ok, err, Action, pure, ◌>>=◌, ◌>>◌}
use split_bill_app.Records.{SafeUser, ActivityEventInput, ActivityEventData}
use split_bill_app.Database.{Transactions, reading}
use split_bill_app.Groups.{Group, GroupMember, GroupWithMembers, GroupRepository}

-- The rows that `findGroupByIdWithMembers` and `findGroupsByUserId` select.
pub record MemberRow : Type 0 where
  pub user : SafeUser

pub record DetailRow : Type 0 where
  pub group : Group
  pub members : List MemberRow

pub record CountRow : Type 0 where
  pub group : Group
  pub members : ℕ

pub record GroupWithMemberCount : Type 0 where
  pub group : Group
  pub member_count : ℕ

-- The Prisma client as far as the repository uses it.
pub record GroupClient (Db : Type 0) : Type 0 where
  pub create_group_row : (name : String) → (created_by_id : ℕ) → Action Db Group
  pub create_member_row : (group_id user_id : ℕ) → Action Db GroupMember
  pub create_activity_event : ActivityEventData → Action Db (Unit {0})
  pub find_group : ℕ → Db → Result (Option Group)
  pub find_group_detail : ℕ → Db → Result (Option DetailRow)
  pub find_groups_of : ℕ → Db → Result (List CountRow)
  pub find_user : ℕ → Db → Result (Option SafeUser)
  pub find_member : (group_id user_id : ℕ) → Db → Result (Option GroupMember)
  pub update_group_row : ℕ → (name : String) → Action Db Group
  pub delete_group_row : ℕ → Action Db (Unit {0})
  pub delete_member_row : (group_id user_id : ℕ) → Action Db (Unit {0})

-- The events of this module carry no amount.
abbrev pub group_event : ℕ → ActivityEventInput → ℕ → ActivityEventData
group_event group_id activity occurred_at = record {
  group_id = group_id;
  event = activity;
  amount_minor_units = none;
  currency_code = none;
  occurred_at = occurred_at;
}

abbrev pub with_member_users : Result (Option DetailRow) → Result (Option GroupWithMembers)
with_member_users (ok none) = ok none
with_member_users (ok (some row)) =
    ok (some (record { group = row.group; members = map (λ m. m.user) row.members }))
with_member_users (err e) = err e

abbrev pub to_count : CountRow → GroupWithMemberCount
to_count row = record { group = row.group; member_count = row.members }

abbrev pub with_counts : Result (List CountRow) → Result (List GroupWithMemberCount)
with_counts (ok rows) = ok (map to_count rows)
with_counts (err e) = err e

-- `.then((member) => member !== null)`
abbrev pub is_there : {A : Type 0} → Result (Option A) → Result Bool
is_there (ok found) = ok (is_some found)
is_there (err e) = err e

module _ {Db : Type 0} (client : GroupClient Db) (transactions : Transactions Db) (now : ℕ) where
  open client use {
    create_group_row, create_member_row, create_activity_event, find_group, find_group_detail,
    find_groups_of, find_user, find_member, update_group_row, delete_group_row, delete_member_row,
  }
  open transactions use {transaction}

  -- The callbacks of the transactions.
  unfoldable pub creating_group : ℕ → String → ActivityEventInput → Action Db Group
  creating_group owner_id name activity = do
    group ← create_group_row name owner_id
    member ← create_member_row group.id owner_id
    create_activity_event (group_event group.id activity group.created_at)
    pure group

  unfoldable pub renaming : ℕ → String → ActivityEventInput → Action Db (Option Group)
  renaming id name activity = do
    group ← update_group_row id name
    create_activity_event (group_event group.id activity now)
    pure (some group)

  unfoldable pub adding_member : ℕ → ℕ → ActivityEventInput → Action Db GroupMember
  adding_member group_id member_id activity = do
    member ← create_member_row group_id member_id
    create_activity_event (group_event group_id activity member.created_at)
    pure member

  unfoldable pub removing_member : ℕ → ℕ → ActivityEventInput → Action Db (Unit {0})
  removing_member group_id member_id activity = do
    delete_member_row group_id member_id
    create_activity_event (group_event group_id activity now)

  abbrev pub rename_found :
      ℕ → String → ActivityEventInput → Option Group → Action Db (Option Group)
  rename_found id name activity none = pure none
  rename_found id name activity (some existing) = transaction (renaming id name activity)

  unfoldable pub update_group_if_there : ℕ → String → ActivityEventInput → Action Db (Option Group)
  update_group_if_there id name activity = do
    existing ← reading (find_group id)
    rename_found id name activity existing

  abbrev pub find_groups_by_user_id : ℕ → Db → Result (List GroupWithMemberCount)
  find_groups_by_user_id user_id db = with_counts (find_groups_of user_id db)

  abbrev pub group_repository : GroupRepository Db
  group_repository = record {
    create_group_with_owner =
        λ owner name activity. transaction (creating_group owner name activity);
    find_group_by_id = find_group;
    find_group_by_id_with_members = λ id db. with_member_users (find_group_detail id db);
    find_user_by_id = find_user;
    is_group_member = λ group_id user_id db. is_there (find_member group_id user_id db);
    update_group = update_group_if_there;
    delete_group = delete_group_row;
    add_group_member = λ g m activity. transaction (adding_member g m activity);
    find_group_member = find_member;
    remove_group_member = λ g m activity. transaction (removing_member g m activity);
  }
