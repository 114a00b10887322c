-- ===== src/Groups/Repository/Tests.antt =====
-- Tables of groups and members whose calls have the rules of the Prisma client; a group is created.
use split_bill_app.Prelude.{
  ℕ, suc, ◌≡◌, refl, Option, none, some, Bool, true, false, not, ◌==◌, ◌&&◌, ◌||◌, if◌then◌else◌,
  String, [], arith,
}
use split_bill_app.Errors.{app, not_found_error, group_not_found}
use split_bill_app.Effects.{ok, err, Action}
use split_bill_app.Records.{ActivityEventInput, group_created}
use split_bill_app.Database.Atomic.{settle, atomic, atomic-TransactionRules}
use split_bill_app.Groups.{Group, GroupMember, GroupRepository}
use split_bill_app.Groups.Repository.{GroupClient, group_repository, creating_group}
use split_bill_app.Groups.Repository.Owners.{GroupView, GroupRules, Unchanged}
use split_bill_app.Groups.Repository.Life.{Reach, here, later, creates, owner_stays_member}

record Tables : Type 0 where
  groups : ℕ → Option Group
  members : ℕ → ℕ → Bool
  next_id : ℕ

abbrev new_group : ℕ → String → ℕ → Group
new_group id name owner = record {
  id = id;
  name = name;
  created_by_id = owner;
  created_at = 5;
  updated_at = 5;
}

abbrev new_member : ℕ → ℕ → GroupMember
new_member g u = record { id = 1; group_id = g; user_id = u; created_at = 5 }

abbrev renamed : String → Group → Group
renamed name g = record g { name = name }

abbrev renamed_if : Bool → String → Option Group → Option Group
renamed_if true name (some g) = some (renamed name g)
renamed_if true name none = none
renamed_if false name o = o

abbrev renaming_row : ℕ → String → Option Group → Action Tables Group
renaming_row id name none db = (err (app (not_found_error group_not_found)), db)
renaming_row id name (some g) db =
    (ok (renamed name g), record db { groups = λ j. renamed_if (j == id) name (db.groups j) })

abbrev owner_in : Option Group → Option ℕ
owner_in none = none
owner_in (some g) = some g.created_by_id

abbrev tables : GroupClient Tables
tables = record {
  create_group_row = λ name owner db. (
    ok (new_group db.next_id name owner),
    record db {
      groups = λ j. if j == db.next_id then some (new_group db.next_id name owner) else db.groups j;
      next_id = suc db.next_id;
    },
  );
  create_member_row = λ g u db.
      (ok (new_member g u), record db { members = λ j v. (j == g && v == u) || db.members j v });
  create_activity_event = λ d db. (ok tt, db);
  find_group = λ id db. ok (db.groups id);
  find_group_detail = λ id db. ok none;
  find_groups_of = λ id db. ok [];
  find_user = λ id db. ok none;
  find_member = λ g u db. ok (if db.members g u then some (new_member g u) else none);
  update_group_row = λ id name db. renaming_row id name (db.groups id) db;
  delete_group_row =
      λ id db. (ok tt, record db { groups = λ j. if j == id then none else db.groups j });
  delete_member_row =
      λ g u db. (ok tt, record db { members = λ j v. not (j == g && v == u) && db.members j v });
}

abbrev view : GroupView Tables
view = record { owner_of = λ g db. owner_in (db.groups g); member_of = λ g u db. db.members g u }

same_owner_in :
    (b : Bool) (name : String) (o : Option Group) → owner_in (renamed_if b name o) ≡ owner_in o
same_owner_in true name (some g) = refl
same_owner_in true name none = refl
same_owner_in false name (some g) = refl
same_owner_in false name none = refl

renamed_lem :
    (id : ℕ) (name : String) (o : Option Group) (g : Group) (db db' : Tables)
    → renaming_row id name o db ≡ (ok g, db')
    → Unchanged tables view db db'
renamed_lem id name none g db db' h = absurd (ground arith)
renamed_lem id name (some x) g db db' h = record {
  same_owner = λ j. let same = same_owner_in (j == id) name (db.groups j) in ground (arith, same);
  same_member = λ j u. ground arith;
}

tables-GroupRules : GroupRules tables view
tables-GroupRules = record {
  group_read = λ id g db h. ground arith;
  group_created = λ name owner g db db' h. (λ j. ground arith, λ j u. ground arith);
  member_created = λ g u m db db' h. (λ j. ground arith, λ j v. ground arith);
  member_deleted = λ g u db db' h. (λ j. ground arith, λ j v. ground arith);
  group_updated = λ id name g db db' h. renamed_lem id name (db.groups id) g db db' h;
  group_deleted = λ id db db' h. (λ j. ground arith, λ j u q. ground arith);
  event_created =
      λ d db db' h. record { same_owner = λ j. ground arith; same_member = λ j u. ground arith };
  delete_rolls_back = λ id db db' e h. absurd (ground arith);
}

abbrev empty : Tables
empty = record { groups = λ j. none; members = λ j u. false; next_id = 7 }

abbrev activity : ActivityEventInput
activity = record { user_id = 2; type = group_created; message = "created the group" }

abbrev home : Group
home = new_group 7 "Home" 2

abbrev repository : GroupRepository Tables
repository = group_repository tables atomic 9

abbrev after : Tables
after = (repository.create_group_with_owner 2 "Home" activity empty).1

home_run : Reach tables view atomic empty after
home_run = later here (creates 9 2 "Home" activity _ after refl)

home_found : tables.find_group 7 after ≡ ok (some home)
unfolding creating_group settle
home_found = refl

owner_stays_member_example : view.member_of 7 2 after ≡ true
owner_stays_member_example =
    owner_stays_member tables view atomic atomic-TransactionRules tables-GroupRules empty after 7
      home (λ id. refl) home_run home_found
