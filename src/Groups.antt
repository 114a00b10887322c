-- ===== src/Groups.antt =====
-- backend/src/modules/groups: the data of a group, the repository and the cache that the service is
-- built over, and the methods of `GroupService` (group.service.ts).
pub mod Access
pub mod Repository
pub mod Caching
pub mod Cache
mod Tests
use split_bill_app.Prelude.{ℕ, List, Option, none, some, String, Bool, not, ◌==◌}
use Prim.Native.String
use split_bill_app.Errors.{
  app, conflict_error, forbidden_error, not_found_error, group_not_found, not_group_member,
  not_group_owner, user_not_found, already_group_member, cannot_remove_owner,
}
use split_bill_app.Effects.{
  Result, ok, err, Action, pure, or_throw, require, ◌>>=◌, ◌>>◌, World, query, command, increment,
  groups_created_total,
}
use split_bill_app.Records.{
  SafeUser, ActivityEventInput, group_created, group_updated, member_added, member_removed,
}

pub record Group : Type 0 where
  pub id : ℕ
  pub name : String
  pub created_by_id : ℕ
  pub created_at : ℕ
  pub updated_at : ℕ

pub record GroupMember : Type 0 where
  pub id : ℕ
  pub group_id : ℕ
  pub user_id : ℕ
  pub created_at : ℕ

pub record GroupWithMembers : Type 0 where
  pub group : Group
  pub members : List SafeUser

pub record GroupRepository (Db : Type 0) : Type 0 where
  pub create_group_with_owner : ℕ → String → ActivityEventInput → Db → Result Group × Db
  pub find_group_by_id : ℕ → Db → Result (Option Group)
  pub find_group_by_id_with_members : ℕ → Db → Result (Option GroupWithMembers)
  pub find_user_by_id : ℕ → Db → Result (Option SafeUser)
  pub is_group_member : ℕ → ℕ → Db → Result Bool
  pub update_group : ℕ → String → ActivityEventInput → Db → Result (Option Group) × Db
  pub delete_group : ℕ → Db → Result (Unit {0}) × Db
  pub add_group_member : ℕ → ℕ → ActivityEventInput → Db → Result GroupMember × Db
  pub find_group_member : ℕ → ℕ → Db → Result (Option GroupMember)
  pub remove_group_member : ℕ → ℕ → ActivityEventInput → Db → Result (Unit {0}) × Db

-- `GroupCache`, none of whose methods throws: a failure is a miss, or is logged.
pub record GroupCache (S : Type 0) : Type 0 where
  pub get_cached_group_by_id : ℕ → S → Option GroupWithMembers × S
  pub set_cached_group_by_id : ℕ → GroupWithMembers → S → S
  pub invalidate_group_cache : ℕ → S → S

abbrev pub cached : {S A : Type 0} → (S → A × S) → Action S A
cached m s = let (a, s') = m s in (ok a, s')

abbrev pub touch : {S : Type 0} → (S → S) → Action S (Unit {0})
touch f s = (ok tt, f s)

abbrev pub event : ℕ → (message : String) → ActivityEventInput
event user_id message = record { user_id = user_id; type = group_created; message = message }

abbrev pub renamed_to : String → String
renamed_to name = String.◌++◌ "renamed the group to \"" (String.◌++◌ name "\"")

abbrev pub added_name : String → String
added_name name = String.◌++◌ "added " (String.◌++◌ name " to the group")

abbrev pub removed_name : String → String
removed_name name = String.◌++◌ "removed " (String.◌++◌ name " from the group")

module _ {Db : Type 0} (repository : GroupRepository Db) (cache : GroupCache (World Db)) where
  open repository use {
    create_group_with_owner, find_group_by_id, find_group_by_id_with_members, find_user_by_id,
    is_group_member, delete_group, add_group_member, find_group_member, remove_group_member,
  }
  open cache use {get_cached_group_by_id, set_cached_group_by_id, invalidate_group_cache}

  unfoldable pub create_group : ℕ → String → Action (World Db) Group
  create_group user_id name = do
    group ← command (create_group_with_owner user_id name (event user_id "created the group"))
    increment groups_created_total
    pure group

  -- The branch of a cache hit, and that of a miss.
  unfoldable pub serve_cached : ℕ → ℕ → GroupWithMembers → Action (World Db) GroupWithMembers
  serve_cached user_id group_id hit = do
    is_member ← query (is_group_member group_id user_id)
    require is_member (app (forbidden_error not_group_member))
    pure hit

  unfoldable pub read_through : ℕ → ℕ → Action (World Db) GroupWithMembers
  read_through user_id group_id = do
    found ← query (find_group_by_id_with_members group_id)
    group ← or_throw found (app (not_found_error group_not_found))
    is_member ← query (is_group_member group_id user_id)
    require is_member (app (forbidden_error not_group_member))
    touch (set_cached_group_by_id group_id group)
    pure group

  unfoldable pub get_group_by_id : ℕ → ℕ → Action (World Db) GroupWithMembers
  get_group_by_id user_id group_id = do
    hit ← cached (get_cached_group_by_id group_id)
    elim hit [
      | some group ↦ serve_cached user_id group_id group
      | none ↦ read_through user_id group_id
    ]

  -- The group, if the user is its owner: the first two tests of every change.
  unfoldable pub owned_group : ℕ → ℕ → Action (World Db) Group
  owned_group user_id group_id = do
    found ← query (find_group_by_id group_id)
    group ← or_throw found (app (not_found_error group_not_found))
    require (group.created_by_id == user_id) (app (forbidden_error not_group_owner))
    pure group

  unfoldable pub update_group : ℕ → ℕ → String → Action (World Db) Group
  unfolding owned_group
  update_group user_id group_id name = do
    owned_group user_id group_id
    written ← command (
        repository.update_group group_id name
          (record { user_id = user_id; type = group_updated; message = renamed_to name }))
    updated ← or_throw written (app (not_found_error group_not_found))
    touch (invalidate_group_cache group_id)
    pure updated

  unfoldable pub delete_group_service : ℕ → ℕ → Action (World Db) (Unit {0})
  unfolding owned_group
  delete_group_service user_id group_id = do
    owned_group user_id group_id
    command (delete_group group_id)
    touch (invalidate_group_cache group_id)

  unfoldable pub add_group_member_service : ℕ → ℕ → ℕ → Action (World Db) GroupMember
  unfolding owned_group
  add_group_member_service user_id group_id member_id = do
    owned_group user_id group_id
    found ← query (find_user_by_id member_id)
    target ← or_throw found (app (not_found_error user_not_found))
    is_member ← query (is_group_member group_id member_id)
    require (not is_member) (app (conflict_error already_group_member))
    member ← command (
        add_group_member group_id member_id
          (record { user_id = user_id; type = member_added; message = added_name target.name }))
    touch (invalidate_group_cache group_id)
    pure member

  unfoldable pub remove_group_member_service : ℕ → ℕ → ℕ → Action (World Db) (Unit {0})
  unfolding owned_group
  remove_group_member_service user_id group_id member_id = do
    group ← owned_group user_id group_id
    require (not (member_id == group.created_by_id)) (app (conflict_error cannot_remove_owner))
    row ← query (find_group_member group_id member_id)
    _ ← or_throw row (app (not_found_error not_group_member))
    found ← query (find_user_by_id member_id)
    target ← or_throw found (app (not_found_error user_not_found))
    command (
        remove_group_member group_id member_id
          (record { user_id = user_id; type = member_removed; message = removed_name target.name }))
    touch (invalidate_group_cache group_id)
