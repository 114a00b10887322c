-- ===== src/Groups/Repository/Owners.antt =====
-- What the writes of `GroupRepository` do to the owners of groups and their memberships.
use split_bill_app.Prelude.{
  ℕ, ◌≡◌, ◌≢◌, sym, ap, ◌∙◌, inl, inr, Option, none, some, Bool, true, false, not, ◌==◌, ◌&&◌, ◌||◌,
  if◌then◌else◌, Bool-cases, String, arith,
}
use split_bill_app.Effects.{ok}
use split_bill_app.Effects.Inversion.{Write-cases, RollsBack}
use split_bill_app.Records.{ActivityEventInput, ActivityEventData}
use split_bill_app.Database.{Transactions}
use split_bill_app.Groups.{Group, GroupMember}
use split_bill_app.Groups.Repository.{
  GroupClient, creating_group, renaming, adding_member, removing_member, group_event,
}

-- The creator of a group and its members, as the tables of a state have them.
pub record GroupView (Db : Type 0) : Type 0 where
  pub owner_of : ℕ → Db → Option ℕ
  pub member_of : (group_id user_id : ℕ) → Db → Bool

module _ {Db : Type 0} (client : GroupClient Db) (view : GroupView Db) where
  open view use {owner_of, member_of}

  pub record Unchanged (db db' : Db) : Type 0 where
    pub same_owner : (g : ℕ) → owner_of g db' ≡ owner_of g db
    pub same_member : (g u : ℕ) → member_of g u db' ≡ member_of g u db

  -- What Prisma documents of the writes.
  pub record GroupRules : Type 0 where
    pub group_read :
        (id : ℕ) (g : Group) (db : Db)
        → client.find_group id db ≡ ok (some g)
        → owner_of id db ≡ some g.created_by_id
    pub group_created :
        (name : String) (owner : ℕ) (g : Group) (db db' : Db)
        → client.create_group_row name owner db ≡ (ok g, db')
        → ((j : ℕ) → owner_of j db' ≡ (if j == g.id then some owner else owner_of j db))
          × ((j u : ℕ) → member_of j u db' ≡ member_of j u db)
    pub member_created :
        (group_id user_id : ℕ) (m : GroupMember) (db db' : Db)
        → client.create_member_row group_id user_id db ≡ (ok m, db')
        → ((j : ℕ) → owner_of j db' ≡ owner_of j db)
          × ((j u : ℕ) → member_of j u db' ≡ ((j == group_id && u == user_id) || member_of j u db))
    pub member_deleted :
        (group_id user_id : ℕ) (db db' : Db)
        → client.delete_member_row group_id user_id db ≡ (ok tt, db')
        → ((j : ℕ) → owner_of j db' ≡ owner_of j db)
          × ((j u : ℕ)
              → member_of j u db' ≡ (not (j == group_id && u == user_id) && member_of j u db))
    pub group_updated :
        (id : ℕ) (name : String) (g : Group) (db db' : Db)
        → client.update_group_row id name db ≡ (ok g, db')
        → Unchanged db db'
    -- The members go with the group (`onDelete: Cascade`); the other groups keep theirs.
    pub group_deleted :
        (id : ℕ) (db db' : Db)
        → client.delete_group_row id db ≡ (ok tt, db')
        → ((j : ℕ) → owner_of j db' ≡ (if j == id then none else owner_of j db))
          × ((j u : ℕ) → (j == id) ≡ false → member_of j u db' ≡ member_of j u db)
    pub event_created :
        (d : ActivityEventData) (db db' : Db)
        → client.create_activity_event d db ≡ (ok tt, db')
        → Unchanged db db'
    pub delete_rolls_back : (id : ℕ) → RollsBack (client.delete_group_row id)

  -- Every group has its owner among its members.
  pub record OwnersAreMembers (db : Db) : Type 0 where
    pub owner_in : (g u : ℕ) → owner_of g db ≡ some u → member_of g u db ≡ true

  Unchanged-owners : (db db' : Db) → Unchanged db db' → OwnersAreMembers db → OwnersAreMembers db'
  Unchanged-owners db db' k o = record {
    owner_in = λ g u e. k.same_member g u ∙ o.owner_in g u (sym (k.same_owner g) ∙ e);
  }

  module _ (transactions : Transactions Db) (now : ℕ) (rules : GroupRules) where
    pub creating_group_owners :
        (owner : ℕ) (name : String) (activity : ActivityEventInput) (g : Group) (db db' : Db)
        → creating_group client transactions now owner name activity db ≡ (ok g, db')
        → OwnersAreMembers db
        → OwnersAreMembers db'
    unfolding creating_group
    creating_group_owners owner name activity g db db' h o =
        elim (Write-cases (client.create_group_row name owner db)) [
          | inr (x, a, failed) ↦ absurd (ground arith)
          | inl (made, a, created) ↦
              let (owners, members) = rules.group_created name owner made db a created in
              elim (Write-cases (client.create_member_row made.id owner a)) [
                | inr (x, b, failed) ↦ absurd (ground arith)
                | inl (m, b, joined) ↦
                    let (owners', members') = rules.member_created made.id owner m a b joined in
                    let told : client.create_activity_event
                          (group_event made.id activity made.created_at) b
                        ≡ (ok tt, db') =
                      ground arith in
                    let k = rules.event_created _ b db' told in
                    Unchanged-owners b db' k (record {
                      owner_in = λ j u e. elim (Bool-cases (j == made.id)) [
                        | inl new ↦ ground (arith, owners' j, owners j, members' j u)
                        | inr old ↦
                            let before = o.owner_in j u (ground (arith, owners' j, owners j)) in
                            ground (arith, members' j u, members j u, before)
                      ];
                    })
              ]
        ]

    pub renaming_owners :
        (id : ℕ) (name : String) (activity : ActivityEventInput) (g : Option Group) (db db' : Db)
        → renaming client transactions now id name activity db ≡ (ok g, db')
        → OwnersAreMembers db
        → OwnersAreMembers db'
    unfolding renaming
    renaming_owners id name activity g db db' h o =
        elim (Write-cases (client.update_group_row id name db)) [
          | inr (x, a, failed) ↦ absurd (ground arith)
          | inl (made, a, renamed) ↦
              elim (Write-cases
                (client.create_activity_event (group_event made.id activity now) a)) [
                  | inr (x, b, failed) ↦ absurd (ground arith)
                  | inl (u, b, told) ↦
                      let last : b ≡ db' = ground arith in
                      let k = rules.group_updated id name made db a renamed in
                      let l = rules.event_created _ a b told in
                      rw (← last) (Unchanged-owners a b l (Unchanged-owners db a k o))
                ]
        ]

    pub adding_member_owners :
        (group_id user_id : ℕ) (activity : ActivityEventInput) (m : GroupMember) (db db' : Db)
        → adding_member client transactions now group_id user_id activity db ≡ (ok m, db')
        → OwnersAreMembers db
        → OwnersAreMembers db'
    unfolding adding_member
    adding_member_owners group_id user_id activity m db db' h o =
        elim (Write-cases (client.create_member_row group_id user_id db)) [
          | inr (x, a, failed) ↦ absurd (ground arith)
          | inl (made, a, joined) ↦
              let (owners, members) = rules.member_created group_id user_id made db a joined in
              elim (Write-cases
                (client.create_activity_event (group_event group_id activity made.created_at) a)) [
                  | inr (x, b, failed) ↦ absurd (ground arith)
                  | inl (u, b, told) ↦
                      let last : b ≡ db' = ground arith in
                      let l = rules.event_created _ a b told in
                      rw (← last) (
                        Unchanged-owners a b l (record {
                          owner_in = λ j v e.
                              let before = o.owner_in j v (sym (owners j) ∙ e) in
                              ground (arith, members j v, before);
                        }))
                ]
        ]

    pub removing_member_owners :
        (group_id user_id : ℕ) (activity : ActivityEventInput) (db db' : Db)
        → removing_member client transactions now group_id user_id activity db ≡ (ok tt, db')
        → owner_of group_id db ≢ some user_id
        → OwnersAreMembers db
        → OwnersAreMembers db'
    unfolding removing_member
    removing_member_owners group_id user_id activity db db' h guard o =
        elim (Write-cases (client.delete_member_row group_id user_id db)) [
          | inr (x, a, failed) ↦ absurd (ground arith)
          | inl (u, a, left) ↦
              let (owners, members) = rules.member_deleted group_id user_id db a left in
              let told : client.create_activity_event (group_event group_id activity now) a
                  ≡ (ok tt, db') =
                ground arith in
              Unchanged-owners a db' (rules.event_created _ a db' told) (record {
                owner_in = λ j v e.
                    let owner = sym (owners j) ∙ e in
                    let before = o.owner_in j v owner in
                    elim (Bool-cases (j == group_id && v == user_id)) [
                      | inl removed ↦
                          let same_group : j ≡ group_id = ground arith in
                          let same_user : v ≡ user_id = ground arith in
                          absurd (
                            guard (
                              sym (ap (λ g. owner_of g db) same_group) ∙ owner ∙ ap some same_user))
                      | inr stays ↦ ground (arith, members j v, before)
                    ];
              })
        ]

    pub deleting_owners :
        (id : ℕ) (db db' : Db)
        → client.delete_group_row id db ≡ (ok tt, db')
        → OwnersAreMembers db
        → OwnersAreMembers db'
    deleting_owners id db db' h o =
        let (owners, members) = rules.group_deleted id db db' h in
        record {
          owner_in = λ j v e. elim (Bool-cases (j == id)) [
            | inl gone ↦ absurd (ground (arith, owners j))
            | inr stays ↦
                let before = o.owner_in j v (ground (arith, owners j)) in members j v stays ∙ before
          ];
        }
