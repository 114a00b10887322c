-- ===== src/Groups/Caching.antt =====
-- The cache of group details: every successful change of a group ends by invalidating its entry.
use split_bill_app.Prelude.{ℕ, ◌≡◌, Option, none, some, Bool, true, false, String, arith}
use split_bill_app.Errors.{Failure}
use split_bill_app.Effects.{
  Result, ok, err, Action, pure, or_throw, require, ◌>>=◌, ◌>>◌, World, query, command,
}
use split_bill_app.Effects.Inversion.{ReadsOnly}
use split_bill_app.Groups.{
  Group, GroupMember, GroupRepository, GroupCache, touch, owned_group, update_group,
  delete_group_service, add_group_member_service, remove_group_member_service,
}

-- If the method returns, it has written the store and then made `last` its last step.
EndsWith : {Db A : Type 0} → (World Db → World Db) → Action (World Db) A → Type 0
EndsWith {Db} {A} last m =
    (w w' : World Db) (a : A) → m w ≡ (ok a, w') → (db' : Db) × (w' ≡ last (record w { db = db' }))

module _ {Db : Type 0} (last : World Db → World Db) where
  touch-EndsWith : EndsWith last (touch last)
  unfolding EndsWith
  touch-EndsWith w w' a h = (w.db, ground arith)

  touch-pure-EndsWith : {A : Type 0} (a : A) → EndsWith last (touch last >> pure a)
  unfolding EndsWith
  touch-pure-EndsWith a w w' b h = (w.db, ground arith)

  module _ {A B : Type 0} where
    or_throw-EndsWith :
        (o : Option A) (x : Failure) (f : A → Action (World Db) B)
        → ((a : A) → EndsWith last (f a))
        → EndsWith last (or_throw o x >>= f)
    unfolding EndsWith
    or_throw-EndsWith none x f k w w' b h = absurd (ground arith)
    or_throw-EndsWith (some a) x f k w w' b h = k a w w' b h

    lift_ends :
        (r : Result A) (f : A → Action (World Db) B) (w w' : World Db) (b : B)
        → ((a : A) → EndsWith last (f a))
        → ((λ v. (r, v)) >>= f) w ≡ (ok b, w')
        → (db' : Db) × (w' ≡ last (record w { db = db' }))
    unfolding EndsWith
    lift_ends (ok a) f w w' b k h = k a w w' b h
    lift_ends (err e) f w w' b k h = absurd (ground arith)

    query-EndsWith :
        (read : Db → Result A) (f : A → Action (World Db) B)
        → ((a : A) → EndsWith last (f a))
        → EndsWith last (query read >>= f)
    unfolding EndsWith
    query-EndsWith read f k w w' b h = lift_ends (read w.db) f w w' b k h

    command_ends :
        (r : Result A × Db) (f : A → Action (World Db) B) (w w' : World Db) (b : B)
        → ((a : A) → EndsWith last (f a))
        → (command (λ _. r) >>= f) w ≡ (ok b, w')
        → (db' : Db) × (w' ≡ last (record w { db = db' }))
    unfolding EndsWith
    command_ends (ok a, db₁) f w w' b k h = k a (record w { db = db₁ }) w' b h
    command_ends (err e, db₁) f w w' b k h = absurd (ground arith)

    command-EndsWith :
        (write : Db → Result A × Db) (f : A → Action (World Db) B)
        → ((a : A) → EndsWith last (f a))
        → EndsWith last (command write >>= f)
    unfolding EndsWith
    command-EndsWith write f k w w' b h = command_ends (write w.db) f w w' b k h

    -- After a method that only reads.
    reads_ends :
        (r : Result A × World Db) (f : A → Action (World Db) B) (w w' : World Db) (b : B)
        → r.1 ≡ w
        → ((a : A) → EndsWith last (f a))
        → ((λ _. r) >>= f) w ≡ (ok b, w')
        → (db' : Db) × (w' ≡ last (record w { db = db' }))
    unfolding EndsWith
    reads_ends (ok a, v) f w w' b same k h = let (db', e) = k a v w' b h in (db', rw (← same) e)
    reads_ends (err e, v) f w w' b same k h = absurd (ground arith)

    reads-EndsWith :
        (m : Action (World Db) A) (f : A → Action (World Db) B)
        → ReadsOnly m
        → ((a : A) → EndsWith last (f a))
        → EndsWith last (m >>= f)
    unfolding EndsWith ReadsOnly
    reads-EndsWith m f only k w w' b h = reads_ends (m w) f w w' b (only w) k h

  require-EndsWith :
      {B : Type 0} (t : Bool) (x : Failure) (m : Action (World Db) B)
      → EndsWith last m
      → EndsWith last (require t x >> m)
  unfolding EndsWith
  require-EndsWith true x m k w w' b h = k w w' b h
  require-EndsWith false x m k w w' b h = absurd (ground arith)

ruleset ends_rules = (
  touch-EndsWith, touch-pure-EndsWith, or_throw-EndsWith, query-EndsWith, command-EndsWith,
  reads-EndsWith, require-EndsWith,
)

module _ {Db : Type 0} (repository : GroupRepository Db) (cache : GroupCache (World Db))
    (user_id group_id : ℕ) where
  owned_group-ReadsOnly : ReadsOnly (owned_group repository cache user_id group_id)
  unfolding owned_group ReadsOnly
  owned_group-ReadsOnly w = ground arith

  update_ends :
      (name : String)
      → EndsWith
          (cache.invalidate_group_cache group_id)
          (update_group repository cache user_id group_id name)
  unfolding update_group
  update_ends name = search (ends_rules, owned_group-ReadsOnly) depth 15

  delete_ends :
      EndsWith
        (cache.invalidate_group_cache group_id)
        (delete_group_service repository cache user_id group_id)
  unfolding delete_group_service
  delete_ends = search (ends_rules, owned_group-ReadsOnly) depth 15

  add_ends :
      (member_id : ℕ)
      → EndsWith
          (cache.invalidate_group_cache group_id)
          (add_group_member_service repository cache user_id group_id member_id)
  unfolding add_group_member_service
  add_ends member_id = search (ends_rules, owned_group-ReadsOnly) depth 15

  remove_ends :
      (member_id : ℕ)
      → EndsWith
          (cache.invalidate_group_cache group_id)
          (remove_group_member_service repository cache user_id group_id member_id)
  unfolding remove_group_member_service
  remove_ends member_id = search (ends_rules, owned_group-ReadsOnly) depth 20

  module _ (w w' : World Db) where
    -- The run wrote some `db'`, counted nothing, and then invalidated the entry of the group.
    abbrev pub Invalidated : Type 0
    Invalidated = (db' : Db) × (w' ≡ cache.invalidate_group_cache group_id (record w { db = db' }))

    -- A renaming of a group that returns invalidates the cached group
    -- as its last step, after the write to the store.
    pub update_group_invalidates :
        (name : String) (group : Group)
        → update_group repository cache user_id group_id name w ≡ (ok group, w')
        → Invalidated
    unfolding EndsWith
    update_group_invalidates name group h = update_ends name w w' group h

    -- A deletion of a group that returns invalidates the cached group
    -- as its last step, after the write to the store.
    pub delete_group_invalidates :
        delete_group_service repository cache user_id group_id w ≡ (ok tt, w') → Invalidated
    unfolding EndsWith
    delete_group_invalidates h = delete_ends w w' tt h

    -- A member added to a group, when the call returns, invalidates the cached group
    -- as its last step, after the write to the store.
    pub add_group_member_invalidates :
        (member_id : ℕ) (member : GroupMember)
        → add_group_member_service repository cache user_id group_id member_id w ≡ (ok member, w')
        → Invalidated
    unfolding EndsWith
    add_group_member_invalidates member_id member h = add_ends member_id w w' member h

    -- A member removed from a group, when the call returns, invalidates the cached group
    -- as its last step, after the write to the store.
    pub remove_group_member_invalidates :
        (member_id : ℕ)
        → remove_group_member_service repository cache user_id group_id member_id w ≡ (ok tt, w')
        → Invalidated
    unfolding EndsWith
    remove_group_member_invalidates member_id h = remove_ends member_id w w' tt h
