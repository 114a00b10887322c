-- ===== src/Groups/Cache/Tests.antt =====
-- The cache on a store that keeps one entry and never fails.
use split_bill_app.Prelude.{◌≡◌, refl, ◌⊎◌, [], ◌∷◌, Option, none, some, true, arith}
use split_bill_app.Keys.{group_cache_key}
use split_bill_app.Effects.{ok, World, cache_failures_total}
use split_bill_app.Records.{SafeUser}
use split_bill_app.Groups.{Group, GroupWithMembers, GroupRepository, update_group}
use split_bill_app.Groups.Cache.{
  Entry, serialize, CacheStore, CacheLaws, get_cached_group_by_id, set_cached_group_by_id,
  invalidate_group_cache, group_cache,
}
use split_bill_app.Groups.Cache.Laws.{get-set_cached_group_by_id, update_group_clears}

abbrev home : Group
home = record { id = 7; name = "Home"; created_by_id = 1; created_at = 5; updated_at = 6 }

abbrev anna : SafeUser
anna = record { id = 2; name = "Anna"; email = "anna@example.org" }

abbrev detail : GroupWithMembers
detail = record { group = home; members = anna ∷ [] }

-- One slot for all keys: a command on any key is a command on the slot.
abbrev Slot : Type 0
Slot = Option Entry

abbrev one_slot : CacheStore Slot
one_slot = record {
  get = λ k s. (ok s, s);
  set = λ k e ttl s. (ok tt, some e);
  delete = λ k s. (ok tt, none);
  cell = λ k s. s;
}

one_slot-CacheLaws : CacheLaws one_slot
one_slot-CacheLaws = record {
  get_reads = λ k o s s' h. (ground arith, ground arith);
  set_writes = λ k e ttl s s' h. ground arith;
  delete_removes = λ k s s' h. ground arith;
}

abbrev start : World Slot
start = record { db = none; metrics = [] }

abbrev filled : Slot
filled = some (serialize detail)

get-set_cached_group_by_id_example :
    get_cached_group_by_id one_slot 300 7 (set_cached_group_by_id one_slot 300 7 detail start)
    ≡ (some detail, record { db = filled; metrics = [] })
get-set_cached_group_by_id_example =
    get-set_cached_group_by_id one_slot one_slot-CacheLaws 300 7 start detail filled filled filled
      refl refl refl

abbrev row_only : GroupRepository Slot
row_only = record {
  create_group_with_owner = λ u n a db. (ok home, db);
  find_group_by_id = λ id db. ok (some home);
  find_group_by_id_with_members = λ id db. ok (some detail);
  find_user_by_id = λ id db. ok (some anna);
  is_group_member = λ g u db. ok true;
  update_group = λ id n a db. (ok (some home), db);
  delete_group = λ id db. (ok tt, db);
  add_group_member =
      λ g u a db. (ok (record { id = 20; group_id = g; user_id = u; created_at = 0 }), db);
  find_group_member = λ g u db. ok none;
  remove_group_member = λ g u a db. (ok tt, db);
}

abbrev warm : World Slot
warm = record { db = filled; metrics = [] }

renamed : update_group row_only (group_cache one_slot 300) 1 7 "Home" warm ≡ (ok home, start)
unfolding update_group invalidate_group_cache
renamed = refl

update_group_clears_example :
    (one_slot.cell (group_cache_key 7) start.db ≡ none)
    ⊎ (start.metrics ≡ cache_failures_total ∷ warm.metrics)
update_group_clears_example =
    update_group_clears one_slot one_slot-CacheLaws 300 7 warm row_only 1 "Home" home start renamed
