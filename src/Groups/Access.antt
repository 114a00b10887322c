-- ===== src/Groups/Access.antt =====
-- Who may read and change a group.
use split_bill_app.Prelude.{
  ℕ, ◌≡◌, refl, ◌⊎◌, inl, inr, Option, none, some, Bool, true, false, ◌==◌, String, arith,
  Option-cases, Bool-cases,
}
use split_bill_app.Errors.{app, conflict_error, cannot_remove_owner, already_group_member}
use split_bill_app.Effects.{Result, ok, err, World}
use split_bill_app.Records.{SafeUser}
use split_bill_app.Groups.{
  Group, GroupWithMembers, GroupRepository, GroupCache, serve_cached, read_through, get_group_by_id,
  update_group, delete_group_service, add_group_member_service, remove_group_member_service,
}

-- A call that changes the group.
pub data GroupChange : Type 0 where
  rename : String → GroupChange
  delete : GroupChange
  add_member remove_member : ℕ → GroupChange

abbrev returned : {A S : Type 0} → Result A × S → Bool × S
returned (ok a, s) = (true, s)
returned (err e, s) = (false, s)

module _ {Db : Type 0} (repository : GroupRepository Db) (cache : GroupCache (World Db))
    (user_id group_id : ℕ) (w : World Db) where
  -- Has the call returned, and which state has it left?
  abbrev pub run_change : GroupChange → Bool × World Db
  run_change (rename name) = returned (update_group repository cache user_id group_id name w)
  run_change delete = returned (delete_group_service repository cache user_id group_id w)
  run_change (add_member id) =
      returned (add_group_member_service repository cache user_id group_id id w)
  run_change (remove_member id) =
      returned (remove_group_member_service repository cache user_id group_id id w)

  pub record IsOwner : Type 0 where
    pub group : Group
    pub found : repository.find_group_by_id group_id w.db ≡ ok (some group)
    pub created : group.created_by_id ≡ user_id

  refused :
      (c : GroupChange) (r : Result (Option Group))
      → repository.find_group_by_id group_id w.db ≡ r
      → IsOwner ⊎ (run_change c ≡ (false, w))
  unfolding update_group delete_group_service add_group_member_service remove_group_member_service
  refused (rename name) (err e) h = inr (ground arith)
  refused delete (err e) h = inr (ground arith)
  refused (add_member id) (err e) h = inr (ground arith)
  refused (remove_member id) (err e) h = inr (ground arith)
  refused (rename name) (ok none) h = inr (ground arith)
  refused delete (ok none) h = inr (ground arith)
  refused (add_member id) (ok none) h = inr (ground arith)
  refused (remove_member id) (ok none) h = inr (ground arith)
  refused c (ok (some g)) h = elim (Bool-cases (g.created_by_id == user_id)) [
    | inl same ↦ inl (record { group = g; found = h; created = ground arith })
    | inr other ↦ inr (stranger c g h other)
  ]
    where
      stranger :
          (c : GroupChange) (g : Group)
          → repository.find_group_by_id group_id w.db ≡ ok (some g)
          → (g.created_by_id == user_id) ≡ false
          → run_change c ≡ (false, w)
      stranger (rename name) g h other = ground arith
      stranger delete g h other = ground arith
      stranger (add_member id) g h other = ground arith
      stranger (remove_member id) g h other = ground arith

  -- Only the owner changes a group: unless the caller is its creator, a call that renames or deletes
  -- the group, or adds or removes a member, throws and leaves store, cache and counters as they were,
  -- whatever else it meets.
  pub only_owner_changes : (c : GroupChange) → IsOwner ⊎ (run_change c ≡ (false, w))
  only_owner_changes c = refused c _ refl

  -- The owner cannot be removed, not even by the owner.
  pub owner_cannot_be_removed :
      (group : Group)
      → repository.find_group_by_id group_id w.db ≡ ok (some group)
      → group.created_by_id ≡ user_id
      → remove_group_member_service repository cache user_id group_id group.created_by_id w
        ≡ (err (app (conflict_error cannot_remove_owner)), w)
  unfolding remove_group_member_service
  owner_cannot_be_removed group found owner = ground arith

  -- A user who is a member already is not added again: ALREADY_GROUP_MEMBER, and nothing changes.
  pub member_added_once :
      (group : Group) (target : SafeUser)
      → repository.find_group_by_id group_id w.db ≡ ok (some group)
      → group.created_by_id ≡ user_id
      → repository.find_user_by_id target.id w.db ≡ ok (some target)
      → repository.is_group_member group_id target.id w.db ≡ ok true
      → add_group_member_service repository cache user_id group_id target.id w
        ≡ (err (app (conflict_error already_group_member)), w)
  unfolding add_group_member_service
  member_added_once group target found owner known member = ground arith

  serve_cached_lem :
      (hit group : GroupWithMembers) (v w' : World Db)
      → serve_cached repository cache user_id group_id hit v ≡ (ok group, w')
      → repository.is_group_member group_id user_id v.db ≡ ok true
  unfolding serve_cached
  serve_cached_lem hit group v w' h = ground arith

  read_through_lem :
      (group : GroupWithMembers) (v w' : World Db)
      → read_through repository cache user_id group_id v ≡ (ok group, w')
      → repository.is_group_member group_id user_id v.db ≡ ok true
  unfolding read_through
  read_through_lem group v w' h = ground arith

  -- Whoever is given a group, from the cache or from the database, is a member at that moment: the
  -- membership is read from the database after the cache has answered.
  pub get_group_by_id-authorized :
      (group : GroupWithMembers) (w' : World Db)
      → get_group_by_id repository cache user_id group_id w ≡ (ok group, w')
      → repository.is_group_member group_id user_id (cache.get_cached_group_by_id group_id w).1.db
        ≡ ok true
  unfolding get_group_by_id
  get_group_by_id-authorized group w' h =
      elim (Option-cases (cache.get_cached_group_by_id group_id w).0) [
        | inl miss ↦
            read_through_lem group (cache.get_cached_group_by_id group_id w).1 w' (ground arith)
        | inr (hit, found) ↦
            serve_cached_lem hit group (cache.get_cached_group_by_id group_id w).1 w' (ground arith)
      ]
