-- ===== src/Groups/Tests.antt =====
-- The service of groups on a small repository with a cache of one entry.
use split_bill_app.Prelude.{
  ℕ, suc, ◌≡◌, refl, [], ◌∷◌, Option, none, some, true, false, ◌⊎◌, ◌==◌, ◌||◌,
}
use split_bill_app.Effects.{ok, World}
use split_bill_app.Records.{SafeUser}
use split_bill_app.Groups.{
  Group, GroupMember, GroupWithMembers, GroupRepository, GroupCache, get_group_by_id, serve_cached,
  update_group, delete_group_service, remove_group_member_service,
}
use split_bill_app.Groups.Access.{
  IsOwner, remove_member, run_change, only_owner_changes, get_group_by_id-authorized,
}

abbrev home : Group
home = record { id = 7; name = "Home"; created_by_id = 1; created_at = 0; updated_at = 0 }

abbrev anna : SafeUser
anna = record { id = 2; name = "Anna"; email = "anna@example.org" }

abbrev row : GroupMember
row = record { id = 20; group_id = 7; user_id = 3; created_at = 0 }

abbrev detail : GroupWithMembers
detail = record { group = home; members = anna ∷ [] }

-- The store is the version of the data and the one cached entry.
abbrev Db : Type 0
Db = ℕ × Option GroupWithMembers

abbrev next : Db → Db
next db = (suc db.0, db.1)

-- The group 7 of user 1, with the members 1 and 2.
abbrev small : GroupRepository Db
small = record {
  create_group_with_owner = λ u n a db. (ok home, next db);
  find_group_by_id = λ id db. ok (some home);
  find_group_by_id_with_members = λ id db. ok (some detail);
  find_user_by_id = λ id db. ok (some anna);
  is_group_member = λ g u db. ok (u == 1 || u == 2);
  update_group = λ id n a db. (ok (some home), next db);
  delete_group = λ id db. (ok tt, next db);
  add_group_member = λ g u a db. (ok row, next db);
  find_group_member = λ g u db. ok (some row);
  remove_group_member = λ g u a db. (ok tt, next db);
}

abbrev put : Option GroupWithMembers → World Db → World Db
put o w = record w { db = (w.db.0, o) }

abbrev one_entry : GroupCache (World Db)
one_entry = record {
  get_cached_group_by_id = λ id w. (w.db.1, w);
  set_cached_group_by_id = λ id group w. put (some group) w;
  invalidate_group_cache = λ id w. put none w;
}

abbrev warm : World Db
warm = record { db = (0, some detail); metrics = [] }

abbrev changed : World Db
changed = record { db = (1, none); metrics = [] }

read_run : get_group_by_id small one_entry 2 7 warm ≡ (ok detail, warm)
unfolding get_group_by_id serve_cached
read_run = refl

get_group_by_id-authorized_example : small.is_group_member 7 2 warm.db ≡ ok true
get_group_by_id-authorized_example =
    get_group_by_id-authorized small one_entry 2 7 warm detail warm read_run

update_run : update_group small one_entry 1 7 "Flat" warm ≡ (ok home, changed)
unfolding update_group
update_run = refl

delete_run : delete_group_service small one_entry 1 7 warm ≡ (ok tt, changed)
unfolding delete_group_service
delete_run = refl

remove_run : remove_group_member_service small one_entry 1 7 3 warm ≡ (ok tt, changed)
unfolding remove_group_member_service
remove_run = refl

only_owner_changes_example :
    IsOwner small one_entry 2 7 warm
    ⊎ (run_change small one_entry 2 7 warm (remove_member 3) ≡ (false, warm))
only_owner_changes_example = only_owner_changes small one_entry 2 7 warm (remove_member 3)
