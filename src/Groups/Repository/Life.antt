-- ===== src/Groups/Repository/Life.antt =====
-- The store of groups over time: the owner of a group is a member of it.
use split_bill_app.Prelude.{ℕ, ◌≡◌, ◌≢◌, inl, inr, Option, none, some, true, String, arith}
use split_bill_app.Effects.{Result, ok, err}
use split_bill_app.Effects.Inversion.{Result-cases}
use split_bill_app.Records.{ActivityEventInput}
use split_bill_app.Database.{Transactions, TransactionRules}
use split_bill_app.Groups.{Group, GroupMember}
use split_bill_app.Groups.Repository.{
  GroupClient, group_repository, rename_found, update_group_if_there,
}
use split_bill_app.Groups.Repository.Owners.{
  GroupView, GroupRules, OwnersAreMembers, creating_group_owners, renaming_owners,
  adding_member_owners, removing_member_owners, deleting_owners,
}

module _ {Db : Type 0} (client : GroupClient Db) (view : GroupView Db) where
  open view use {owner_of, member_of}

  module _ (transactions : Transactions Db) where
    -- One write of the repository at the time `now`, however it ends. A member is removed only if
    -- the member is not the owner, as `GroupService.removeGroupMember` tests.
    pub data Step (db : Db) : Db → Type 0 where
      creates :
          (now owner : ℕ) (name : String) (activity : ActivityEventInput) (r : Result Group)
          (db' : Db)
          → (group_repository client transactions now).create_group_with_owner owner name activity
              db
            ≡ (r, db')
          → Step db db'
      renames :
          (now id : ℕ) (name : String) (activity : ActivityEventInput) (r : Result (Option Group))
          (db' : Db)
          → (group_repository client transactions now).update_group id name activity db ≡ (r, db')
          → Step db db'
      deletes :
          (now id : ℕ) (r : Result (Unit {0})) (db' : Db)
          → (group_repository client transactions now).delete_group id db ≡ (r, db')
          → Step db db'
      adds :
          (now group_id user_id : ℕ) (activity : ActivityEventInput) (r : Result GroupMember)
          (db' : Db)
          → (group_repository client transactions now).add_group_member group_id user_id activity db
            ≡ (r, db')
          → Step db db'
      removes :
          (now group_id user_id : ℕ) (activity : ActivityEventInput) (r : Result (Unit {0}))
          (db' : Db)
          → owner_of group_id db ≢ some user_id
          → (group_repository client transactions now).remove_group_member group_id user_id activity
              db
            ≡ (r, db')
          → Step db db'

    pub data Reach (start : Db) : Db → Type 0 where
      here : Reach start start
      later : {db db' : Db} → Reach start db → Step db db' → Reach start db'

    module _ (commits : TransactionRules transactions) (rules : GroupRules client view) where
      rename_found_owners :
          (now id : ℕ) (name : String) (activity : ActivityEventInput) (o : Option Group)
          (r : Result (Option Group)) (db db' : Db)
          → rename_found client transactions now id name activity o db ≡ (r, db')
          → OwnersAreMembers client view db
          → OwnersAreMembers client view db'
      rename_found_owners now id name activity none r db db' h own =
          let same : db' ≡ db = ground arith in rw same own
      rename_found_owners now id name activity (some g) (ok o) db db' h own =
          renaming_owners client view transactions now rules id name activity o db db'
            (commits.commits _ o db db' h) own
      rename_found_owners now id name activity (some g) (err e) db db' h own =
          rw (commits.rolls_back _ e db db' h) own

      update_owners :
          (now id : ℕ) (name : String) (activity : ActivityEventInput) (r : Result (Option Group))
          (db db' : Db)
          → update_group_if_there client transactions now id name activity db ≡ (r, db')
          → OwnersAreMembers client view db
          → OwnersAreMembers client view db'
      unfolding update_group_if_there
      update_owners now id name activity r db db' h own =
          elim (Result-cases (client.find_group id db)) [
            | inl (o, found) ↦
                rename_found_owners now id name activity o r db db' (ground arith) own
            | inr (x, failed) ↦ let same : db' ≡ db = ground arith in rw same own
          ]

      Step-owners :
          {db db' : Db}
          → Step db db'
          → OwnersAreMembers client view db
          → OwnersAreMembers client view db'
      Step-owners {db} (creates now owner name activity (ok g) db' h) own =
          creating_group_owners client view transactions now rules owner name activity g db db'
            (commits.commits _ g db db' h) own
      Step-owners {db} (creates now owner name activity (err e) db' h) own =
          rw (commits.rolls_back _ e db db' h) own
      Step-owners {db} (renames now id name activity r db' h) own =
          update_owners now id name activity r db db' h own
      Step-owners {db} (deletes now id (ok tt) db' h) own =
          deleting_owners client view transactions now rules id db db' h own
      Step-owners {db} (deletes now id (err e) db' h) own =
          rw (rules.delete_rolls_back id db db' e h) own
      Step-owners {db} (adds now g u activity (ok m) db' h) own =
          adding_member_owners client view transactions now rules g u activity m db db'
            (commits.commits _ m db db' h) own
      Step-owners {db} (adds now g u activity (err e) db' h) own =
          rw (commits.rolls_back _ e db db' h) own
      Step-owners {db} (removes now g u activity (ok tt) db' guard h) own =
          removing_member_owners client view transactions now rules g u activity db db'
            (commits.commits _ tt db db' h) guard own
      Step-owners {db} (removes now g u activity (err e) db' guard h) own =
          rw (commits.rolls_back _ e db db' h) own

      -- Start from a store without groups, and let the repository create, rename and delete groups,
      -- add members, and remove members who are not the owner, in any order, each call succeeding or
      -- failing: whenever a group is found, its creator is one of its members. It is assumed that a
      -- transaction commits or rolls back and that the client has the rules of `GroupRules`.
      pub owner_stays_member :
          (start db : Db) (group_id : ℕ) (g : Group)
          → ((id : ℕ) → owner_of id start ≡ none)
          → Reach start db
          → client.find_group group_id db ≡ ok (some g)
          → member_of group_id g.created_by_id db ≡ true
      owner_stays_member start db group_id g none_yet run found =
          (reached run).owner_in group_id g.created_by_id (rules.group_read group_id g db found)
        where
          reached : {at : Db} → Reach start at → OwnersAreMembers client view at
          reached here = record { owner_in = λ j u e. absurd (ground (arith, none_yet j)) }
          reached (later before s) = Step-owners s (reached before)
